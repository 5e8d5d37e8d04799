-- ===== src/Ttl/Extender.antt =====
-- dapp/api/_lib/jobs/ttl.ts: the job, and `extendPersistentTtl` of dapp/api/_lib/soroban_client.ts.
use sentinel_soroban_v.Base.{
  ℕ, zero, suc, ◌+◌, ◌/◌, String, Bool, true, false, Option, none, some, List, [], ◌∷◌, ◌++◌, ltb,
  leb, if◌then◌else◌, length, select, all, map,
}
use sentinel_soroban_v.World.{
  Call, active_count, flight_config, write_failed, submitted, extend_ttl, extend_footprint,
  prune_settled, sweep_expired,
}
use sentinel_soroban_v.World.Db.{SettlementRow}
use sentinel_soroban_v.World.Monad.{
  Env, FlightConfig, TxState, success, failed, M, pure, skip, raise, emit, push, rotated, deferred,
  now, sleep, query, statement, read_as, catch, ◌>>=◌, ◌>>◌,
}
use sentinel_soroban_v.Soroban.{attempt, get_transaction, invoke}
use sentinel_soroban_v.Ttl.{Batch, in_shard, slot_of, week_offset, batches_of, interleaved}
use sentinel_soroban_v.Ttl.Rows.{
  TtlResult, done, failure, contracts, max_passes, candidates, mark_swept, is_over, has_unclaimed,
  distinct, route_text,
}

-- what the loop over the batches counts
pub record Progress : Type 0 where
  pub extended : ℕ
  pub deferred_batches : ℕ
  pub deferred_keys : ℕ
  pub results : List TtlResult

module _ (env : Env) where
  -- the poll's rounds of `extendPersistentTtl`, before those that are left
  unfoldable pub on_state : Call → TxState → M Unit → M Unit
  on_state c success rest = skip
  on_state c failed rest = raise (write_failed c false)
  on_state c _ rest = rest

  unfoldable pub await_extension : ℕ → Call → M Unit
  unfolding on_state
  await_extension zero c = raise (write_failed c false)
  await_extension (suc rounds) c = do
    sleep env 1000
    state ← get_transaction env c
    on_state c state (await_extension rounds c)

  -- `extendPersistentTtl`
  unfoldable pub extend_persistent_ttl : String → List String → M Unit
  unfolding await_extension
  extend_persistent_ttl contract keys = do
    attempt env (extend_footprint contract keys) env.account
    attempt env (extend_footprint contract keys) env.simulate
    emit (submitted (extend_footprint contract keys))
    attempt env (extend_footprint contract keys) env.send
    await_extension 30 (extend_footprint contract keys)

  -- a step of the run, whose failure is a result
  unfoldable pub as_result : String → M Unit → M TtlResult
  as_result name m = catch (do m; pure (done name)) (λ e. pure (failure name))

  unfoldable pub extend_contracts : List String → M (List TtlResult)
  unfolding as_result
  extend_contracts [] = pure []
  extend_contracts (name ∷ rest) = do
    result ← as_result name (invoke env (extend_ttl name))
    results ← extend_contracts rest
    pure (result ∷ results)

  -- `readCount`
  unfoldable pub read_count : M ℕ
  read_count = read_as env active_count (λ log. env.counter log active_count)

  -- one pass of the drain loop, before the passes that are left
  unfoldable pub prune_pass : ℕ → (ℕ → M Unit) → M Unit
  prune_pass count go = do
    invoke env prune_settled
    next ← read_count
    if leb count next then skip else go next

  unfoldable pub prune_passes : ℕ → ℕ → M Unit
  unfolding prune_pass
  prune_passes zero count = skip
  prune_passes (suc left) count = prune_pass count (prune_passes left)

  unfoldable pub prune_aged : M Unit
  unfolding prune_passes
  prune_aged = do count ← read_count; prune_passes (max_passes count) count

  -- a candidate whose window is over: whether its row is to be marked, and the results
  unfoldable pub sweep_over : SettlementRow → FlightConfig → M (Bool × List TtlResult)
  sweep_over c cfg =
      if has_unclaimed cfg
      then (do
        invoke env (sweep_expired c.flight_id c.date)
        pure (true, done "sweep_expired" ∷ []))
      else pure (true, [])

  unfoldable pub on_config : ℕ → SettlementRow → Option FlightConfig → M (Bool × List TtlResult)
  unfolding sweep_over is_over
  on_config now_secs c none = pure (false, [])
  on_config now_secs c (some cfg) =
      if is_over now_secs cfg then sweep_over c cfg else pure (false, [])

  unfoldable pub examine : ℕ → SettlementRow → M (Bool × List TtlResult)
  unfolding on_config
  examine now_secs c = do
    cfg ←
        read_as env (flight_config c.flight_id c.date)
          (λ log. env.flight_config log c.flight_id c.date)
    on_config now_secs c cfg

  unfoldable pub mark_candidate : SettlementRow → List TtlResult → M (List TtlResult)
  mark_candidate c results =
      catch (do statement env (mark_swept c.flight_id c.date); pure results)
        (λ e. pure (results ++ failure "sweep_expired" ∷ []))

  -- the body of the loop over the candidates
  unfoldable pub sweep_candidate : ℕ → SettlementRow → M (List TtlResult)
  unfolding examine mark_candidate
  sweep_candidate now_secs c = do
    examined ← catch (examine now_secs c) (λ e. pure (false, failure "sweep_expired" ∷ []))
    if examined.0 then mark_candidate c examined.1 else pure examined.1

  unfoldable pub sweep_candidates : ℕ → List SettlementRow → M (List TtlResult)
  unfolding sweep_candidate
  sweep_candidates now_secs [] = pure []
  sweep_candidates now_secs (c ∷ rest) = do
    some_results ← sweep_candidate now_secs c
    results ← sweep_candidates now_secs rest
    pure (some_results ++ results)

  unfoldable pub on_candidates : List SettlementRow → M (List TtlResult)
  unfolding sweep_candidates
  on_candidates [] = pure []
  on_candidates (c ∷ rest) = do t ← now env; sweep_candidates (t / 1000) (c ∷ rest)

  -- `sweepExpiredClaims`
  unfoldable pub sweep_expired_claims : M (List TtlResult)
  unfolding on_candidates candidates
  sweep_expired_claims =
      if env.db_configured
      then catch (do rows ← query env candidates; on_candidates rows) (λ e. pure [])
      else pure []

  -- the keys that can be built, and a failure for each that cannot
  unfoldable pub build_keys : String → List String → List String × List TtlResult
  build_keys label [] = ([], [])
  build_keys label (k ∷ rest) =
      let (keys, results) = build_keys label rest in
      if env.key_builds k then (k ∷ keys, results) else (keys, failure label ∷ results)

  -- a batch within the time budget
  unfoldable pub extend_batch : Batch → Progress → M Progress
  extend_batch b p =
      catch
        (do
          extend_persistent_ttl b.name b.keys
          pure (record p {
            extended = p.extended + length b.keys;
            results = p.results ++ done b.name ∷ [];
          }))
        (λ e. pure (record p { results = p.results ++ failure b.name ∷ [] }))

  unfoldable pub extend_or_defer : ℕ → Batch → Progress → M Progress
  unfolding extend_batch
  extend_or_defer start b p = do
    t ← now env
    if ltb (start + 230000) t
        then pure (record p {
          deferred_batches = p.deferred_batches + 1;
          deferred_keys = p.deferred_keys + length b.keys;
        })
        else extend_batch b p

  unfoldable pub extend_batches : ℕ → List Batch → Progress → M Progress
  unfolding extend_or_defer
  extend_batches start [] p = pure p
  extend_batches start (b ∷ rest) p = do
    p' ← extend_or_defer start b p
    extend_batches start rest p'

  unfoldable pub note_deferred : Progress → M Unit
  note_deferred p =
      if ltb 0 p.deferred_batches
      then push "-" (deferred p.deferred_keys p.deferred_batches)
      else skip

  -- the body of the `try` of `extendIdlePersistentKeys`
  unfoldable pub extend_idle : ℕ → M (List TtlResult)
  unfolding extend_batches note_deferred build_keys distinct route_text
  extend_idle start = do
    routes ← query env (λ db. map (λ r. route_text r.route) db.routes)
    buyers ← query env (λ db. distinct db.buyers)
    t ← now env
    let route_keys = build_keys "route key" (select (in_shard t) routes)
    let traveler_keys = build_keys "traveler key" (select (in_shard t) buyers)
    week ← now env
    p ←
        extend_batches start
          (interleaved (batches_of "governance Route" route_keys.0)
            (batches_of "controller TravelerFlights" traveler_keys.0) (week_offset week))
          (record {
            extended = 0;
            deferred_batches = 0;
            deferred_keys = 0;
            results = route_keys.1 ++ traveler_keys.1;
          })
    push "-" (
        rotated (slot_of t + 1) (length route_keys.0) (length traveler_keys.0) p.extended
          (length routes) (length buyers))
    note_deferred p
    pure p.results

  -- `extendIdlePersistentKeys`
  unfoldable pub extend_idle_persistent_keys : ℕ → M (List TtlResult)
  unfolding extend_idle
  extend_idle_persistent_keys start =
      if env.db_configured
      then catch (extend_idle start) (λ e. pure (failure "key-level extend (whole pass)" ∷ []))
      else pure []

  -- `run`: its results, which are all successes where the run is one
  unfoldable pub run : M (List TtlResult)
  unfolding extend_contracts prune_aged sweep_expired_claims extend_idle_persistent_keys
  run = do
    start ← now env
    instances ← extend_contracts contracts
    pruned ← as_result "OracleAggregator.prune_settled" prune_aged
    swept ← sweep_expired_claims
    keys ← extend_idle_persistent_keys start
    pure (instances ++ (pruned ∷ (swept ++ keys)))

abbrev pub is_success : List TtlResult → Bool
is_success results = all (λ r. r.success) results
