-- ===== src/Interface/Ping/Timers.antt =====
-- lib/src/runtime/interface/l4_managers/ping.rs: what the timers do with sessions that are over.
use narth_network.Base.{
  ℕ, ◌+◌, ◌-◌, ◌<◌, ◌≡◌, refl, true, false, none, List, [], ◌∷◌, ◌++◌, arith, ltb, ok,
}
use narth_network.Interface.{InterfaceContext, World}
use narth_network.Interface.Ping.{
  PingReport, PingEntry, PingManager, report, is_unfinished, retain_live, garbage_collect,
  process_timeouts, timeout,
}
use narth_network.Interface.Ping.Manager.{
  send_if_due, process_timers_session, process_sessions, stop_sessions, ping_perform_timers,
}

-- Whether each of these pings of a session is older than the session's timeout.
unfoldable pub AreExpired : ℕ → PingEntry → List (ℕ × ℕ) → Type 0
AreExpired now e [] = Unit
AreExpired now e ((sequence, sent_at) ∷ later) =
    (sent_at + e.timeout < now) × AreExpired now e later

-- Whether each of these sessions has sent all its pings and waits for expired ones only.
unfoldable pub AreOver : ℕ → List PingEntry → Type 0
unfolding AreExpired
AreOver now [] = Unit
AreOver now (e ∷ es) = (is_unfinished e ≡ false) × AreExpired now e e.pending × AreOver now es

unfoldable pub timeouts : PingEntry → List (ℕ × ℕ) → List PingReport
timeouts e [] = []
timeouts e ((sequence, sent_at) ∷ later) = report e sequence timeout ∷ timeouts e later

unfoldable pub timeouts_of_all : List PingEntry → List PingReport
unfolding timeouts
timeouts_of_all [] = []
timeouts_of_all (e ∷ es) = timeouts e e.pending ++ timeouts_of_all es

-- The pings of a session, without those pending.
abbrev without_pending : PingEntry → PingEntry
without_pending e = record e { pending = [] }

abbrev all_without_pending : List PingEntry → List PingEntry
all_without_pending [] = []
all_without_pending (e ∷ es) = without_pending e ∷ all_without_pending es

process_timeouts-AreExpired :
    (now : ℕ) (e : PingEntry) (pings : List (ℕ × ℕ))
    → AreExpired now e pings
    → process_timeouts now e pings ≡ ([], timeouts e pings)
unfolding AreExpired timeouts process_timeouts
process_timeouts-AreExpired now e [] h = refl
process_timeouts-AreExpired now e ((sequence, sent_at) ∷ later) (old, h) =
    let late : ltb e.timeout (now - sent_at) ≡ true = ground arith in
    rw (process_timeouts-AreExpired now e later h, late) refl

retain_live-without_pending :
    (now : ℕ) (es : List PingEntry) → AreOver now es → retain_live (all_without_pending es) ≡ []
unfolding AreOver retain_live
retain_live-without_pending now [] h = refl
retain_live-without_pending now (e ∷ es) (over, expired, h) =
    rw (over, retain_live-without_pending now es h) refl

module _ (w : World) where
  process_sessions-AreOver :
      (now : ℕ) (es : List PingEntry) (ctx : InterfaceContext)
      → AreOver now es
      → process_sessions w now es ctx ≡ ok (all_without_pending es, none, timeouts_of_all es, ctx)
  unfolding AreOver timeouts_of_all process_sessions process_timers_session send_if_due
  process_sessions-AreOver now [] ctx h = refl
  process_sessions-AreOver now (e ∷ es) ctx (over, expired, h) =
      rw
        (
          process_timeouts-AreExpired now e e.pending expired,
          over,
          process_sessions-AreOver now es ctx h,
        )
        refl

  -- Where every session that was not stopped has sent all its pings and waits only for pings older
  -- than its timeout, the timers end every session, report each of those pings once as timed out,
  -- in order, send nothing and leave no deadline.
  pub ping_perform_timers-AreOver :
      (p : PingManager) (ctx : InterfaceContext)
      → AreOver (w.clock ctx.readings) (stop_sessions w p.stops p.sessions)
      → ping_perform_timers w p ctx
        ≡ ok (
          none,
          record p {
            sessions = [];
            stops = [];
            reports = p.reports ++ timeouts_of_all (stop_sessions w p.stops p.sessions);
          },
          record ctx { readings = ctx.readings + 1 },
        )
  unfolding ping_perform_timers garbage_collect
  ping_perform_timers-AreOver p ctx h =
      rw
        (
          process_sessions-AreOver (w.clock ctx.readings) (stop_sessions w p.stops p.sessions)
              (record ctx { readings = ctx.readings + 1 }) h,
          retain_live-without_pending (w.clock ctx.readings) (stop_sessions w p.stops p.sessions) h,
        )
        refl
