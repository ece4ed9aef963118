-- ===== src/Tasks/Recovery/Outcomes.antt =====
-- What becomes of the executions when a leader recovers or cleans them up
-- (scheduler/internal/service/{execution_service,cleanup_service}.go).
use bdopsflow.Prelude.{
  ℕ, ◌-◌, ◌<◌, ◌≤◌, ◌≡◌, ◌↔◌, refl, sym, ap, ◌∙◌, subst, true, false, ◌&&◌, Option, none, some,
  arith, List, Bool-cases, inl, inr, ◌⊎◌, ◌≢◌, if◌then◌else◌,
}
use bdopsflow.Redis.{Reply, ok, err}
use bdopsflow.Tasks.Interface.{failed, Execution, Backend, Rows, set_status}
use bdopsflow.Tasks.{renewal_limit, is_stale, update_execution_result}
use bdopsflow.Tasks.Recovery.Losses.{force_fail_task-rows, renew_found-rows}
use bdopsflow.Tasks.Recovery.{
  Found, Seen, Probe, Health, should_fail, has_timed_out, is_recent, renewed_ago, lacks_renewal,
  health, online, heartbeat, recover_one,
}

-- A limit, if there is one, is not passed.
unfoldable pub Within : Option ℕ → ℕ → Type 0
Within none n = Unit
Within (some limit) n = n ≤ limit

module _ {S : Type 0} (b : Backend S) (p : Probe S) (f : Found) (now : ℕ) (s : S) where
  -- The executor is online, gave a heartbeat in the last 90 seconds and answers a ping; the execution
  -- was renewed within the limit, and started within it where its start is known.
  pub record IsLive : Type 0 where
    pub seen : Seen
    pub last_heartbeat : ℕ
    pub last_renewal : ℕ
    pub is_seen : p.get_executor f.executor_id s ≡ ok seen
    pub is_online : seen.is_online ≡ true
    pub beats : seen.last_heartbeat ≡ some last_heartbeat
    pub is_recent : now - last_heartbeat < 90
    pub answers : p.ping f.executor_id s ≡ true
    pub renews : b.get_renew f.execution_id s ≡ ok (some last_renewal)
    pub renewed : Within (renewal_limit (b.get_task f.task_id s)) (now - last_renewal)
    pub started :
        (t : ℕ) → f.start ≡ some t → Within (renewal_limit (b.get_task f.task_id s)) (now - t)

  is_stale-Within : (limit : Option ℕ) (n : ℕ) → is_stale limit n ≡ false ↔ Within limit n
  unfolding is_stale Within
  is_stale-Within none n = (λ h. tt, λ h. refl)
  is_stale-Within (some limit) n = (λ h. ground arith, λ h. ground arith)

  -- The health that the replies amount to.
  judged : Option ℕ → Reply Seen → Reply (Option ℕ) → Option ℕ → Health
  judged limit seen renewal beat = record {
    executor_online = online b p seen;
    recently_active = is_recent beat now;
    reachable = online b p seen && p.ping f.executor_id s;
    no_renewal = lacks_renewal renewal;
    renewal_expired = is_stale limit (renewed_ago renewal now);
    task_timeout = has_timed_out limit f.start now;
  }

  in_time :
      (limit : Option ℕ)
      → has_timed_out limit f.start now ≡ false
        ↔ ((t : ℕ) → f.start ≡ some t → Within limit (now - t))
  unfolding has_timed_out
  in_time limit = by_start f.start
    where
      same_time : {t u : ℕ} → ◌≡◌ {A = Option ℕ} (some t) (some u) → t ≡ u
      same_time q = cc

      by_start :
          (o : Option ℕ)
          → has_timed_out limit o now ≡ false ↔ ((t : ℕ) → o ≡ some t → Within limit (now - t))
      by_start none = (λ h t q. absurd cc, λ h. refl)
      by_start (some t) = (
        λ h u q.
            subst (λ v. Within limit (now - v)) (same_time q)
              ((is_stale-Within limit (now - t)).0 h),
        λ h. (is_stale-Within limit (now - t)).1 (h t refl),
      )

  by_replies :
      (seen : Reply Seen)
      → p.get_executor f.executor_id s ≡ seen
      → (renewal : Reply (Option ℕ)) → b.get_renew f.execution_id s ≡ renewal
      → (beat : Option ℕ) → beat ≡ heartbeat b p seen
      → should_fail (judged (renewal_limit (b.get_task f.task_id s)) seen renewal beat) ≡ false
      → IsLive
  unfolding should_fail judged online heartbeat is_recent lacks_renewal renewed_ago
  by_replies err hs renewal hr beat hb h = absurd (ground arith)
  by_replies (ok x) hs err hr beat hb h = absurd (ground arith)
  by_replies (ok x) hs (ok none) hr beat hb h = absurd (ground arith)
  by_replies (ok x) hs (ok (some r)) hr none hb h = absurd (ground arith)
  by_replies (ok x) hs (ok (some r)) hr (some l) hb h = record {
    seen = x;
    last_heartbeat = l;
    last_renewal = r;
    is_seen = hs;
    is_online = ground arith;
    beats = sym hb;
    is_recent = ground arith;
    answers = ground arith;
    renews = hr;
    renewed = (is_stale-Within _ _).0 (ground arith);
    started = (in_time _).0 (ground arith);
  }

  of_live : IsLive → should_fail (health b p f now s) ≡ false
  unfolding health should_fail judged online heartbeat is_recent lacks_renewal renewed_ago
  of_live l =
      let limit = renewal_limit (b.get_task f.task_id s) in
      let renewal = b.get_renew f.execution_id s in
      ap (λ g. should_fail (judged limit g renewal (heartbeat b p g))) l.is_seen
      ∙ ap (λ q. should_fail (judged limit (ok l.seen) q l.seen.last_heartbeat)) l.renews
      ∙ ap (λ o. should_fail (judged limit (ok l.seen) (ok (some l.last_renewal)) o)) l.beats
      ∙ ground (
        arith,
        l.is_online,
        l.answers,
        l.is_recent,
        (is_stale-Within limit (now - l.last_renewal)).1 l.renewed,
        (in_time limit).1 l.started,
      )

  pub should_fail-IsLive : should_fail (health b p f now s) ≡ false ↔ IsLive
  unfolding health judged
  should_fail-IsLive = (by_replies _ refl _ refl _ refl, of_live)

-- What a new leader does with an execution that its query has found, going by the replies about it and
-- its executor: one that is alive stays as it is in the table; one that is not is failed, and stays as
-- it is only where the UPDATE is not carried out.
pub recover_one-IsLive :
    {S : Type 0} (b : Backend S) (rows : S → List Execution) (laws : Rows b rows) (p : Probe S)
    (f : Found) (now : ℕ) (s : S)
    → (IsLive b p f now s × (rows (recover_one b p now f s) ≡ rows s))
      ⊎ (¬ IsLive b p f now s
          × (rows (recover_one b p now f s) ≡ (
              if (update_execution_result b f.execution_id failed s).1
              then set_status f.execution_id failed (rows s)
              else rows s)))
unfolding recover_one
recover_one-IsLive b rows laws p f now s = elim (Bool-cases (should_fail (health b p f now s))) [
  | inl t ↦ inr (
    λ l. true_not_false (sym t ∙ (should_fail-IsLive b p f now s).1 l),
    rw t (force_fail_task-rows b rows laws p f.task_id f.execution_id s),
  )
  | inr t ↦
      inl ((should_fail-IsLive b p f now s).0 t, rw t (renew_found-rows b rows laws p f now s))
]
  where
    true_not_false : true ≢ false
    true_not_false h = cc
