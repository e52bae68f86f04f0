-- ===== src/Registry/Hashing.antt =====
-- What `hash_of` of pallets/vanity-registry/src/lib.rs says of an account and a name.
use vantiy_name_registry.Base.{
  ℕ, ◌≡◌, refl, sym, ap, ap₂, ◌∙◌, ◌≢◌, ◌⊎◌, inl, inr, none, some, List, [], ◌∷◌, ◌++◌, length,
  list_discrete, ℕ_discrete, arith,
}
use mathlib.Core.List.{head-eq_of_cons-eq, tail-eq_of_cons-eq}
use vantiy_name_registry.Frame.Dispatch.{err, pallet_error}
use vantiy_name_registry.Registry.{
  Config, State, hash_of, commit_not_found, commit, reveal, insert_commit,
}
use vantiy_name_registry.Registry.Counting.{commit_at}
use vantiy_name_registry.Registry.Commits
use vantiy_name_registry.Registry.Calls.{new_period, commit_lem, reveal_unknown}

-- What the encodings of the runtime are documented to be: those of the accounts are of one length,
-- and no two accounts and no two names have the same encoding.
pub record IsCodec (T : Config) : Type 0 where
  pub account_length : ℕ
  pub account_fixed : (a : T.AccountId) → length (T.encode_account a) ≡ account_length
  pub account_injective : (a b : T.AccountId) → T.encode_account a ≡ T.encode_account b → a ≡ b
  pub name_injective : (m n : T.Name) → T.encode_name m ≡ T.encode_name n → m ≡ n

append_injective :
    (xs ys zs ws : List ℕ) → length xs ≡ length ys → xs ++ zs ≡ ys ++ ws → (xs ≡ ys) × (zs ≡ ws)
append_injective [] [] zs ws l e = (refl, e)
append_injective [] (y ∷ ys) zs ws l e = absurd (omega arith)
append_injective (x ∷ xs) [] zs ws l e = absurd (omega arith)
append_injective (x ∷ xs) (y ∷ ys) zs ws l e =
    let rest = append_injective xs ys zs ws (omega arith) (tail-eq_of_cons-eq e) in
    (ap₂ ◌∷◌ (head-eq_of_cons-eq e) rest.0, rest.1)

module _ (T : Config) where
  -- The bytes that `hash_of` hashes.
  abbrev pub preimage : T.AccountId → T.Name → List ℕ
  preimage id name = T.encode_account id ++ T.encode_name name

  -- Two byte strings that the runtime's hash does not tell apart.
  abbrev pub Collision : List ℕ → List ℕ → Type 0
  Collision x y = (x ≢ y) × (T.hash_of_bytes x ≡ T.hash_of_bytes y)

  preimage_injective :
      (id id' : T.AccountId) (name name' : T.Name)
      → IsCodec T
      → preimage id name ≡ preimage id' name'
      → (id ≡ id') × (name ≡ name')
  preimage_injective id id' name name' c e =
      let both =
        append_injective (T.encode_account id) (T.encode_account id') (T.encode_name name)
          (T.encode_name name') (c.account_fixed id ∙ sym (c.account_fixed id')) e in
      (c.account_injective id id' both.0, c.name_injective name name' both.1)

  hash_of-lem :
      (id : T.AccountId) (name : T.Name) → hash_of T id name ≡ T.hash_of_bytes (preimage id name)
  unfolding hash_of
  hash_of-lem id name = refl

-- Two commits with the same hash are of the same account and the same name, or their preimages are a
-- collision of the runtime's hash.
pub hash_of-binds :
    (T : Config) (id id' : T.AccountId) (name name' : T.Name)
    → IsCodec T
    → hash_of T id name ≡ hash_of T id' name'
    → ((id ≡ id') × (name ≡ name')) ⊎ Collision T (preimage T id name) (preimage T id' name')
hash_of-binds T id id' name name' c e =
    elim (list_discrete ℕ_discrete (preimage T id name) (preimage T id' name')) [
      | yes q ↦ inl (preimage_injective T id id' name name' c q)
      | no n ↦ inr (n, sym (hash_of-lem T id name) ∙ e ∙ hash_of-lem T id' name')
    ]

-- Who commits the hash of another account's claim to a name, and has no commit to it of its own, cannot
-- reveal the name: `CommitNotFound`, unless it has found a collision.
pub copied_commit :
    (T : Config) (origin : T.Origin) (x who : T.AccountId) (name : T.Name) (s : State T)
    → IsCodec T
    → T.ensure_signed origin ≡ some x
    → x ≢ who
    → commit_at T x (hash_of T x name) s ≡ none
    → ((reveal T origin name (commit T origin (hash_of T who name) s).1).0
        ≡ err (pallet_error commit_not_found))
      ⊎ Collision T (preimage T x name) (preimage T who name)
copied_commit T origin x who name s c by n e =
    elim (T.hash_discrete (hash_of T who name) (hash_of T x name)) [
      | yes q ↦ elim (hash_of-binds T x who name name c (sym q)) [
        | inl k ↦ absurd (n k.0)
        | inr k ↦ inr k
      ]
      | no k ↦ inl (ap (λ r. r.0) (reveal_unknown T origin x by name _ (absent k)))
    ]
  where
    absent :
        hash_of T who name ≢ hash_of T x name
        → commit_at T x (hash_of T x name) (commit T origin (hash_of T who name) s).1 ≡ none
    absent k =
        let t = insert_commit T x (hash_of T who name) (new_period T s) s in
        ap (λ r. commit_at T x (hash_of T x name) r.1)
          (commit_lem T origin x by (hash_of T who name) s)
        ∙ Commits.commit_at-update_locked_fund T x x (hash_of T x name) t
        ∙ Commits.commit_at-insert_commit_ne T x x (hash_of T who name) (hash_of T x name)
            (new_period T s) s (λ p. k (ap (λ z. z.1) p))
        ∙ e
