-- ===== src/Registry/Writes/Finalize.antt =====
-- How often `on_finalize` of pallets/vanity-registry/src/lib.rs writes to storage. No weight is charged
-- for it.
use vantiy_name_registry.Base.{
  ℕ, ◌+◌, ◌*◌, ◌≡◌, ap, List, [], ◌∷◌, ◌++◌, map, arith, length, length-append, length-map,
}
use vantiy_name_registry.Registry.{
  Config, OwnerOf, EventOf, commit_expired, name_freed, State, expired_commits, expire_commit,
  expire_commits, remove_expired_commits, expired_names, free_name, free_names,
  remove_expired_names, on_finalize,
}
use vantiy_name_registry.Registry.Expiry.Finalize.{
  expired_names-remove_expired_commits, events-on_finalize,
}
use vantiy_name_registry.Registry.Writes.{counted, writes, write_counts}

module _ (T : Config) where
  writes-expire_commit :
      (c : T.AccountId × T.Hash) (s : State (counted T))
      → writes T (expire_commit (counted T) c s) ≡ 2 + writes T s
  unfolding expire_commit
  writes-expire_commit (id, hash) s = grind write_counts

  writes-expire_commits :
      (cs : List (T.AccountId × T.Hash)) (s : State (counted T))
      → writes T (expire_commits (counted T) cs s) ≡ 2 * length cs + writes T s
  unfolding expire_commits
  writes-expire_commits [] s = omega arith
  writes-expire_commits (c ∷ cs) s =
      omega
        (arith, writes-expire_commits cs (expire_commit (counted T) c s), writes-expire_commit c s)

  writes-free_name :
      (e : T.Name × OwnerOf T) (s : State (counted T))
      → writes T (free_name (counted T) e s) ≡ 2 + writes T s
  unfolding free_name
  writes-free_name (name, owner) s = grind write_counts

  writes-free_names :
      (es : List (T.Name × OwnerOf T)) (s : State (counted T))
      → writes T (free_names (counted T) es s) ≡ 2 * length es + writes T s
  unfolding free_names
  writes-free_names [] s = omega arith
  writes-free_names (e ∷ es) s =
      omega (arith, writes-free_names es (free_name (counted T) e s), writes-free_name e s)

writes-maps :
    (T : Config) (now : ℕ) (s : State (counted T))
    → writes T (on_finalize (counted T) now s)
      ≡ 2 * length (expired_commits (counted T) now s)
        + 2 * length (expired_names (counted T) now s)
        + writes T s
unfolding on_finalize remove_expired_commits remove_expired_names
writes-maps T now s =
    let t = remove_expired_commits (counted T) now s in
    omega (
      arith,
      writes-free_names T (expired_names (counted T) now t) t,
      ap length (expired_names-remove_expired_commits (counted T) now s),
      writes-expire_commits T (expired_commits (counted T) now s) s,
    )

module _ (T : Config) (now : ℕ) (s : State (counted T)) where
  abbrev commits_end : List (EventOf (counted T))
  commits_end = map (λ c. commit_expired c.1 c.0) (expired_commits (counted T) now s)

  abbrev names_end : List (EventOf (counted T))
  names_end = map (λ e. name_freed e.0) (expired_names (counted T) now s)

  length-events :
      length (on_finalize (counted T) now s).events
      ≡ length (expired_commits (counted T) now s)
        + length (expired_names (counted T) now s)
        + length s.events
  length-events = omega (
    arith,
    ap length (events-on_finalize (counted T) now s),
    length-append s.events (commits_end ++ names_end),
    length-append commits_end names_end,
    length-map (λ (c : T.AccountId × T.Hash). commit_expired c.1 c.0)
        (expired_commits (counted T) now s),
    length-map (λ (e : T.Name × OwnerOf T). name_freed e.0) (expired_names (counted T) now s),
  )

-- For each commit and for each name that expires, the end of a block makes two writes to the two maps and
-- the locks, which are an insertion, a removal, or the setting or the removing of a lock, and deposits one
-- event; it makes no other write to them and deposits no other event.
pub writes-on_finalize :
    (T : Config) (now : ℕ) (s : State (counted T))
    → let t = on_finalize (counted T) now s in
      let expired =
        length (expired_commits (counted T) now s) + length (expired_names (counted T) now s) in
      (writes T t ≡ 2 * expired + writes T s) × (length t.events ≡ expired + length s.events)
writes-on_finalize T now s =
    (omega (arith, writes-maps T now s), omega (arith, length-events T now s))
