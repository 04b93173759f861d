-- ===== src/Runtime/Link/Queue/Watch.antt =====
-- The sleep of the two sides of a queue link: what the runtime knows of a task after a poll is whether
-- it may sleep, and a wake ends the sleep.
use route_rs.Common.{
  List, [], ◌∷◌, Bool, true, false, not, ◌&&◌, Option, none, some, Outcome, ok, ◌>>=◌,
  if◌then◌else◌,
}
use route_rs.Runtime.Crossbeam.{Crossbeam}
use route_rs.Runtime.TaskPark.{Memory}
use route_rs.Runtime.TaskPark.Swaps.{woke}
use route_rs.Runtime.Link.{Poll, ready, pending, Port}
use route_rs.Runtime.Link.Queue.{QueueIngressor, poll, poll_next}
use route_rs.Runtime.Link.Queue.Run.{Running, Turn, ingress, egress, settle, deliver}

abbrev pub is_pending : {A : Type 0} → Poll A → Bool
is_pending pending = true
is_pending (ready a) = false

module _ (cb : Crossbeam) (S A B : Type 0) (process : S → A → Option B × S) where
  open cb use {is_full}

  -- Whether the ingressor sleeps because the channel is full, and whether the egressor sleeps.
  pub record Watched : Type 0 where
    pub running : Running cb S A B process
    pub ingress_waits : Bool
    pub egress_waits : Bool

  -- No task was woken since.
  abbrev pub forget : Memory cb → Memory cb
  forget mem = record mem { woken = [] }

  abbrev pub watch_ingress :
      Watched → Poll (Unit {0}) × QueueIngressor cb S A B process × Port cb B × Memory cb → Watched
  watch_ingress w (answer, i, port, mem) = record {
    running = settle cb S A B process w.running (answer, i, port, mem);
    ingress_waits = is_pending answer && (is_full port.channel && not (woke 0 mem.woken));
    egress_waits = w.egress_waits && not (woke 1 mem.woken);
  }

  abbrev pub watch_egress : Watched → Poll (Option B) × Port cb B × Memory cb → Watched
  watch_egress w (answer, port, mem) = record {
    running = deliver cb S A B process w.running (answer, port, mem);
    ingress_waits = w.ingress_waits && not (woke 0 mem.woken);
    egress_waits = is_pending answer && not (woke 1 mem.woken);
  }

  unfoldable pub watched_turn : Turn → Watched → Outcome Watched
  unfolding poll poll_next woke
  watched_turn ingress w = elim w.running.ingressor [
    | none ↦ ok w
    | some i ↦ do
      result ← poll cb S A B process 0 i w.running.port (forget w.running.mem)
      ok (watch_ingress w result)
  ]
  watched_turn egress w =
      if w.running.ended
      then ok w
      else ok (watch_egress w (poll_next cb B 1 w.running.port (forget w.running.mem)))

  unfoldable pub watched_run : List Turn → Watched → Outcome Watched
  unfolding watched_turn
  watched_run [] w = ok w
  watched_run (turn ∷ turns) w = watched_turn turn w >>= watched_run turns
