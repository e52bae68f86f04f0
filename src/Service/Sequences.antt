-- ===== src/Service/Sequences.antt =====
-- Sequences of the effects of node/src/service.rs, and the computations that perform them.
use vantiy_name_registry.Base.{
  ◌≡◌, refl, sym, ap, ◌∙◌, fun_ext, Bool, true, false, List, [], ◌∷◌, ◌++◌, if◌then◌else◌, arith,
}
use vantiy_name_registry.Service.Effects.{Host, EffectOf, Run, Serve, perform, give, ◌>>=◌, ◌>>◌}
use vantiy_name_registry.Service.{when}

assoc :
    {R E A B C : Type 0} (m : Run R E A) (f : A → Run R E B) (g : B → Run R E C)
    → ◌≡◌ {A = Run R E C} ((m >>= f) >>= g) (m >>= λ a. f a >>= g)
assoc m f g = fun_ext (λ done. ground arith)

module _ (H : Host) where
  -- The effects one after the other, and then the rest.
  unfoldable pub perform_all : {A : Type 0} → List (EffectOf H) → Serve H A → Serve H A
  perform_all [] k = k
  perform_all (e ∷ es) k = perform H e >> perform_all es k

  pub perform_all-append :
      {A : Type 0} (es fs : List (EffectOf H)) (k : Serve H A)
      → perform_all (es ++ fs) k ≡ perform_all es (perform_all fs k)
  unfolding perform_all
  perform_all-append [] fs k = refl
  perform_all-append (e ∷ es) fs k =
      ap (λ (m : Serve H _). perform H e >> m) (perform_all-append es fs k)

  pub perform_all-bind :
      {A B : Type 0} (es : List (EffectOf H)) (m : Serve H A) (f : A → Serve H B)
      → ◌≡◌ {A = Serve H B} (perform_all es m >>= f) (perform_all es (m >>= f))
  unfolding perform_all
  perform_all-bind [] m f = refl
  perform_all-bind (e ∷ es) m f =
      assoc (perform H e) (λ _. perform_all es m) f
      ∙ ap (λ (n : Serve H _). perform H e >> n) (perform_all-bind es m f)

  abbrev pub optional : Bool → List (EffectOf H) → List (EffectOf H)
  optional b es = if b then es else []

  when-plan :
      {A : Type 0} (b : Bool) (m : Serve H (Unit {0})) (es : List (EffectOf H)) (k : Serve H A)
      → m ≡ perform_all es (give H tt)
      → ◌≡◌ {A = Serve H A} (when H b m >> k) (perform_all (optional b es) k)
  unfolding perform_all
  when-plan true m es k e =
      ap (λ (n : Serve H (Unit {0})). n >> k) e ∙ perform_all-bind es (give H tt) (λ _. k)
  when-plan false m es k e = refl

  pub one :
      (e : EffectOf H)
      → ◌≡◌ {A = Serve H (Unit {0})} (perform H e) (perform_all (e ∷ []) (give H tt))
  unfolding perform_all
  one e = fun_ext (λ done. ground arith)

  pub step :
      (e : EffectOf H) (k : Serve H (Unit {0})) (fs : List (EffectOf H))
      → k ≡ perform_all fs (give H tt)
      → ◌≡◌ {A = Serve H (Unit {0})} (perform H e >> k) (perform_all (e ∷ fs) (give H tt))
  unfolding perform_all
  step e k fs p = ap (λ (n : Serve H (Unit {0})). perform H e >> n) p

  pub when-step :
      (b : Bool) (m k : Serve H (Unit {0})) (es fs : List (EffectOf H))
      → m ≡ perform_all es (give H tt)
      → k ≡ perform_all fs (give H tt)
      → ◌≡◌ {A = Serve H (Unit {0})}
          (when H b m >> k)
          (perform_all (optional b es ++ fs) (give H tt))
  when-step b m k es fs p q =
      when-plan b m es k p
      ∙ ap (perform_all (optional b es)) q
      ∙ sym (perform_all-append (optional b es) fs (give H tt))
