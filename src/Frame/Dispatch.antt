-- ===== src/Frame/Dispatch.antt =====
-- The result of a dispatchable call, and its effects: a call runs on the state and returns a result
-- and the state. A call is no transaction: what it wrote before an error stays written.
use vantiy_name_registry.Base.{Option, none, some}

-- `DispatchError`: `BadOrigin`, or an error of the pallet.
pub data DispatchError (E : Type 0) : Type 0 where
  bad_origin : DispatchError E
  pallet_error : E → DispatchError E

pub data Result (E A : Type 0) : Type 0 where
  ok : A → Result E A
  err : DispatchError E → Result E A

abbrev pub Exec : Type 0 → Type 0 → Type 0 → Type 0
Exec S E A = S → Result E A × S

module _ {S E A : Type 0} where
  abbrev pub lift : Result E A → Exec S E A
  lift r s = (r, s)

  abbrev pub gets : (S → A) → Exec S E A
  gets f s = (ok (f s), s)

  -- `.ok_or(e)?`
  abbrev pub ok_or : Option A → E → Exec S E A
  ok_or none e s = (err (pallet_error e), s)
  ok_or (some a) _ s = (ok a, s)

abbrev pub modify : {S E : Type 0} → (S → S) → Exec S E (Unit {0})
modify f s = (ok tt, f s)

infixl 5 ◌>>=◌ ◌>>◌
abbrev pub ◌>>=◌ : {S E A B : Type 0} → Exec S E A → (A → Exec S E B) → Exec S E B
◌>>=◌ m f s = let (r, s') = m s in elim r [ ok a ↦ f a s' | err e ↦ (err e, s') ]

abbrev pub ◌>>◌ : {S E B : Type 0} → Exec S E (Unit {0}) → Exec S E B → Exec S E B
m >> k = m >>= λ _. k
