-- ===== src/Service/Plans/Outcomes.antt =====
-- How the services of node/src/service.rs end.
use Prim.Native.String.{String}
use mathlib.Core.List.{append-nil, append_assoc}
use vantiy_name_registry.Base.{
  ◌≡◌, refl, sym, ap, subst, ◌∙◌, ◌⊎◌, inl, inr, none, some, List, [], ◌∷◌, ◌++◌, Option-cases,
  arith,
}
use vantiy_name_registry.Base.Results.{Result, ok, err}
use vantiy_name_registry.Service.Effects.{
  Host, ServiceError, other, host_error, Configuration, EffectOf, give,
}
use vantiy_name_registry.Service.{new_partial, new_full, new_light}
use vantiy_name_registry.Service.Sequences.{perform_all}
use vantiy_name_registry.Service.Plans.{full_plan, new_full-plan}
use vantiy_name_registry.Service.Plans.Light.{light_plan, new_light-plan}

module _ (H : Host) where
  abbrev pub End : Type 0
  End = Result (ServiceError H.HostError) (Unit {0}) × List (EffectOf H)

  -- Behind `done`, the framework refuses none of the effects, one after the other.
  abbrev pub Passes : (done : List (EffectOf H)) → List (EffectOf H) → Type 0
  Passes done [] = Unit
  Passes done (e ∷ es) = (H.fails done e ≡ none) × Passes (done ++ e ∷ []) es

  -- Behind `done`, nothing of the plan failed, and all of it was done.
  abbrev pub Completed : (plan done : List (EffectOf H)) → End → Type 0
  Completed plan done r = (r.0 ≡ ok tt) × (r.1 ≡ done ++ plan) × Passes done plan

  -- Behind `done`, the plan was done up to the first effect that failed, and its error is returned.
  pub record Stopped (plan done : List (EffectOf H)) (r : End) : Type 0 where
    pub before : List (EffectOf H)
    pub failing : EffectOf H
    pub behind : List (EffectOf H)
    pub error : H.HostError
    pub passed : Passes done before
    pub split : plan ≡ before ++ failing ∷ behind
    pub fails : H.fails (done ++ before) failing ≡ some error
    pub result : r.0 ≡ err (host_error error)
    pub trace : r.1 ≡ done ++ before

  abbrev Ends : (plan done : List (EffectOf H)) → End → Type 0
  Ends plan done r = Completed plan done r ⊎ Stopped plan done r

  perform_all-cons_none :
      (e : EffectOf H) (plan done : List (EffectOf H))
      → H.fails done e ≡ none
      → perform_all H (e ∷ plan) (give H tt) done ≡ perform_all H plan (give H tt) (done ++ e ∷ [])
  unfolding perform_all
  perform_all-cons_none e plan done n = ground arith

  perform_all-cons_some :
      (e : EffectOf H) (x : H.HostError) (plan done : List (EffectOf H))
      → H.fails done e ≡ some x
      → perform_all H (e ∷ plan) (give H tt) done ≡ (err (host_error x), done)
  unfolding perform_all
  perform_all-cons_some e x plan done n = ground arith

  -- One effect more in front.
  Ends-cons :
      (e : EffectOf H) (plan done : List (EffectOf H)) (r : End)
      → H.fails done e ≡ none
      → Ends plan (done ++ e ∷ []) r
      → Ends (e ∷ plan) done r
  Ends-cons e plan done r n (inl c) = inl (c.0, c.1 ∙ append_assoc done (e ∷ []) plan, (n, c.2))
  Ends-cons e plan done r n (inr s) = inr (record {
    passed = (n, s.passed);
    before = e ∷ s.before;
    failing = s.failing;
    behind = s.behind;
    error = s.error;
    split = ap (◌∷◌ e) s.split;
    fails = ap (λ l. H.fails l s.failing) (sym (append_assoc done (e ∷ []) s.before)) ∙ s.fails;
    result = s.result;
    trace = s.trace ∙ append_assoc done (e ∷ []) s.before;
  })

  Ends-failed :
      (e : EffectOf H) (x : H.HostError) (plan done : List (EffectOf H))
      → H.fails done e ≡ some x
      → Ends (e ∷ plan) done (err (host_error x), done)
  Ends-failed e x plan done n = inr (record {
    passed = tt;
    before = [];
    failing = e;
    behind = plan;
    error = x;
    split = refl;
    fails = ap (λ l. H.fails l e) (append-nil done) ∙ n;
    result = refl;
    trace = sym (append-nil done);
  })

  perform_all-Ends :
      (plan done : List (EffectOf H)) → Ends plan done (perform_all H plan (give H tt) done)
  unfolding perform_all
  perform_all-Ends [] done = inl (refl, sym (append-nil done), tt)
  perform_all-Ends (e ∷ plan) done = elim (Option-cases (H.fails done e)) [
    | inl n ↦
        subst (Ends (e ∷ plan) done) (sym (perform_all-cons_none e plan done n))
          (Ends-cons e plan done _ n (perform_all-Ends plan (done ++ e ∷ [])))
    | inr (x, n) ↦
        subst (Ends (e ∷ plan) done) (sym (perform_all-cons_some e x plan done n))
          (Ends-failed e x plan done n)
  ]

-- A full node without a remote keystore ends in one of two ways. Either none of the effects of its plan
-- fails, all of them are done, in their order, and there is no error; or those in front of the first that
-- fails are done, nothing else is, and the error of that one is returned.
pub new_full-ends :
    (H : Host) (config : Configuration H) (done : List (EffectOf H))
    → config.keystore_remote ≡ none
    → Completed H (full_plan H config) done (new_full H config done)
      ⊎ Stopped H (full_plan H config) done (new_full H config done)
new_full-ends H config done e =
    rw (new_full-plan H config e) (perform_all-Ends H (full_plan H config) done)

-- A light node, whatever it says on a remote keystore, ends in one of two ways. Either none of the effects
-- of its plan fails, all of them are done, in their order, and there is no error; or those in front of the
-- first that fails are done, nothing else is, and the error of that one is returned.
pub new_light-ends :
    (H : Host) (config : Configuration H) (done : List (EffectOf H))
    → Completed H (light_plan H config) done (new_light H config done)
      ⊎ Stopped H (light_plan H config) done (new_light H config done)
new_light-ends H config done =
    rw (new_light-plan H config) (perform_all-Ends H (light_plan H config) done)

module _ (H : Host) (plan done : List (EffectOf H)) (r : End H)
    (never_fails : (l : List (EffectOf H)) (e : EffectOf H) → H.fails l e ≡ none) where
  Ends-starts : Completed H plan done r ⊎ Stopped H plan done r → r ≡ (ok tt, done ++ plan)
  Ends-starts (inl c) = λ i. (c.0 i, c.1 i)
  Ends-starts (inr s) = absurd (cc (s.fails, never_fails (done ++ s.before) s.failing))

-- Where the framework refuses nothing, a full node without a remote keystore starts, with exactly the
-- effects of its plan.
pub new_full-starts :
    (H : Host) (config : Configuration H) (done : List (EffectOf H))
    → config.keystore_remote ≡ none
    → ((l : List (EffectOf H)) (e : EffectOf H) → H.fails l e ≡ none)
    → new_full H config done ≡ (ok tt, done ++ full_plan H config)
new_full-starts H config done e never_fails =
    Ends-starts H (full_plan H config) done (new_full H config done) never_fails
      (new_full-ends H config done e)

pub new_light-starts :
    (H : Host) (config : Configuration H) (done : List (EffectOf H))
    → ((l : List (EffectOf H)) (e : EffectOf H) → H.fails l e ≡ none)
    → new_light H config done ≡ (ok tt, done ++ light_plan H config)
new_light-starts H config done never_fails =
    Ends-starts H (light_plan H config) done (new_light H config done) never_fails
      (new_light-ends H config done)

-- A full node with a remote keystore is refused before any effect, with the message of `new_partial`:
-- never with that of the hook of the remote keystore, which is not reached.
pub new_full-remote_keystore :
    (H : Host) (config : Configuration H) (done : List (EffectOf H)) (url : String)
    → config.keystore_remote ≡ some url
    → (new_partial H config done ≡ (err (other "Remote Keystores are not supported."), done))
      × (new_full H config done ≡ (err (other "Remote Keystores are not supported."), done))
unfolding new_full new_partial
new_full-remote_keystore H config done url e = (rw e refl, rw e refl)
