-- ===== src/ChainSpec/Each.antt =====
-- The members that a `vec!` of node/src/chain_spec.rs gets from a list of seeds.
use mathlib.Core.List.{
  Mem-prop, Nodup-cons, Nodup-nil, mem-cons_self, mem-cons_of_mem, eq-or-mem_of_mem-cons,
  not-mem-nil,
}
use mathlib.Core.Logic.Or
use vantiy_name_registry.Base.{
  suc, ◌≡◌, refl, sym, ap, subst, ◌∙◌, ◌≢◌, inl, inr, Option, Option-cases, none, some, List, [],
  ◌∷◌, Mem, Nodup, length, arith,
}
use vantiy_name_registry.ChainSpec.{each, ◌>>=◌}

module _ {A B : Type 0} (f : A → Option B) where
  pub each_total :
      (l : List A) → ((a : A) → Mem a l → f a ≢ none) → (bs : List B) × (each f l ≡ some bs)
  each_total [] h = ([], refl)
  each_total (a ∷ l) h = elim (Option-cases (f a)) [
    | inl e ↦ absurd (h a mem-cons_self e)
    | inr (b, e) ↦
        let (bs, es) = each_total l (λ x m. h x (mem-cons_of_mem a m)) in (b ∷ bs, rw (e, es) refl)
  ]

  -- What comes of a first seed and of the others.
  each-cons :
      (a : A) (l : List A) (bs : List B)
      → each f (a ∷ l) ≡ some bs
      → (b : B) × (rest : List B) × (f a ≡ some b) × (each f l ≡ some rest) × (b ∷ rest ≡ bs)
  each-cons a l bs e = elim (Option-cases (f a)) [
    | inl n ↦ absurd (cc (e, ap (λ o. o >>= λ b. each f l >>= λ r. some (b ∷ r)) n))
    | inr (b, eb) ↦ elim (Option-cases (each f l)) [
      | inl n ↦ absurd (stuck b e eb n)
      | inr (rest, er) ↦ (b, rest, eb, er, joined b rest e eb er)
    ]
  ]
    where
      stuck : (b : B) → each f (a ∷ l) ≡ some bs → f a ≡ some b → each f l ≢ none
      stuck b e eb n = ground arith

      joined :
          (b : B) (rest : List B)
          → each f (a ∷ l) ≡ some bs
          → f a ≡ some b
          → each f l ≡ some rest
          → b ∷ rest ≡ bs
      joined b rest e eb er = ground arith

  pub mem-each :
      (l : List A) (bs : List B) (a : A) (b : B)
      → each f l ≡ some bs
      → f a ≡ some b
      → Mem a l
      → Mem b bs
  mem-each [] bs a b e ea m = absurd (not-mem-nil m)
  mem-each (x ∷ l) bs a b e ea m =
      let (y, ys, ey, es, eb) = each-cons x l bs e in
      subst (λ r. Mem b r) eb
        (Or.elim Mem-prop (eq-or-mem_of_mem-cons m)
          (λ q. subst (λ r. Mem r (y ∷ ys)) (some_inj y q ey) mem-cons_self)
          (λ r. mem-cons_of_mem y (mem-each l ys a b es ea r)))
    where
      some_inj : (y : B) → a ≡ x → f x ≡ some y → y ≡ b
      some_inj y q ey = ground arith

  pub length-each : (l : List A) (bs : List B) → each f l ≡ some bs → length bs ≡ length l
  length-each [] [] e = refl
  length-each [] (b ∷ bs) e = absurd (cc e)
  length-each (x ∷ l) bs e =
      let (y, ys, ey, es, eb) = each-cons x l bs e in
      sym (ap length eb) ∙ ap suc (length-each l ys es)

  -- Distinct seeds give distinct members.
  not-mem-each :
      (l : List A) (bs : List B) (x : A) (y : B)
      → ((a : A) → Mem a l → f a ≡ f x → a ≡ x)
      → each f l ≡ some bs
      → f x ≡ some y
      → ¬ Mem x l
      → ¬ Mem y bs
  not-mem-each [] [] x y inj e ex n m = not-mem-nil m
  not-mem-each [] (b ∷ bs) x y inj e ex n m = absurd (cc e)
  not-mem-each (a ∷ l) bs x y inj e ex n m =
      let (z, zs, ez, es, eb) = each-cons a l bs e in
      Or.elim (λ p q. absurd p) (eq-or-mem_of_mem-cons (subst (λ r. Mem y r) (sym eb) m))
        (λ q. n (subst (λ r. Mem r (a ∷ l)) (inj a mem-cons_self (cc (ez, ex, q))) mem-cons_self))
        (not-mem-each l zs x y (λ c r. inj c (mem-cons_of_mem a r)) es ex
          (λ r. n (mem-cons_of_mem a r)))

  pub Nodup-each :
      (l : List A) (bs : List B)
      → ((a x : A) → Mem a l → Mem x l → f a ≡ f x → a ≡ x)
      → each f l ≡ some bs
      → Nodup l
      → Nodup bs
  Nodup-each [] [] inj e d = Nodup-nil
  Nodup-each [] (b ∷ bs) inj e d = absurd (cc e)
  Nodup-each (x ∷ l) bs inj e d =
      let (y, ys, ey, es, eb) = each-cons x l bs e in
      let (n, dl) = Nodup-cons.0 d in
      subst Nodup eb (
        Nodup-cons.1 (
          not-mem-each l ys x y (λ a m. inj a x (mem-cons_of_mem x m) mem-cons_self) es ey n,
          Nodup-each l ys (λ a c m r. inj a c (mem-cons_of_mem x m) (mem-cons_of_mem x r)) es dl,
        ))
