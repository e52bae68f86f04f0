-- ===== src/Base/Texts.antt =====
-- Tests on lists of strings: the seeds of node/src/chain_spec.rs and the pallets of runtime/src/lib.rs.
use mathlib.Core.List.{
  Nodup-cons, Nodup-nil, Mem-prop, mem-cons_self, mem-cons_of_mem, eq-or-mem_of_mem-cons,
  not-mem-nil,
}
use mathlib.Core.Logic.Or
use Prim.Native.String.{String}
use text.Mathlib.Text.{◌==◌}
use text.Mathlib.TextEquality.{eq_iff}
use vantiy_name_registry.Base.{
  ◌≡◌, refl, sym, subst, inl, inr, Bool, true, false, Bool-cases, if◌then◌else◌, List, [], ◌∷◌, Mem,
  Nodup, arith,
}

abbrev pub contains : List String → String → Bool
contains [] s = false
contains (x ∷ l) s = if x == s then true else contains l s

abbrev pub within : List String → List String → Bool
within [] m = true
within (x ∷ l) m = if contains m x then within l m else false

abbrev pub distinct : List String → Bool
distinct [] = true
distinct (x ∷ l) = if contains l x then false else distinct l

pub contains_lem : (l : List String) (s : String) → contains l s ≡ true → Mem s l
contains_lem [] s e = absurd (cc e)
contains_lem (x ∷ l) s e = elim (Bool-cases (x == s)) [
  | inl h ↦ subst (λ r. Mem r (x ∷ l)) ((eq_iff x s).0 h) mem-cons_self
  | inr h ↦ mem-cons_of_mem x (contains_lem l s (ground arith))
]

pub contains-mem : (l : List String) (s : String) → Mem s l → contains l s ≡ true
contains-mem [] s m = absurd (not-mem-nil m)
contains-mem (x ∷ l) s m = elim (Bool-cases (x == s)) [
  | inl h ↦ rw h refl
  | inr h ↦ rw h (contains-mem l s (other h))
]
  where
    other : (x == s) ≡ false → Mem s l
    other h =
        Or.elim Mem-prop (eq-or-mem_of_mem-cons m) (λ q. absurd (cc (h, (eq_iff x s).1 (sym q))))
          (λ r. r)

pub within_lem : (l m : List String) → within l m ≡ true → (s : String) → Mem s l → Mem s m
within_lem [] m e s k = absurd (not-mem-nil k)
within_lem (x ∷ l) m e s k = elim (Bool-cases (contains m x)) [
  | inl h ↦
      Or.elim Mem-prop (eq-or-mem_of_mem-cons k)
        (λ q. subst (λ r. Mem r m) (sym q) (contains_lem m x h)) (within_lem l m (ground arith) s)
  | inr h ↦ absurd (ground arith)
]

pub distinct_lem : (l : List String) → distinct l ≡ true → Nodup l
distinct_lem [] e = Nodup-nil
distinct_lem (x ∷ l) e = elim (Bool-cases (contains l x)) [
  | inl h ↦ absurd (ground arith)
  | inr h ↦ Nodup-cons.1 ((λ m. cc (h, contains-mem l x m)), distinct_lem l (ground arith))
]
