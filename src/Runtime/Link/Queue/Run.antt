-- ===== src/Runtime/Link/Queue/Run.antt =====
-- A queue link in use: the runtime polls its ingressor and its consumer polls its egressor, in any
-- order. The ingressor is dropped when its future is done, and a stream that has ended is not polled.
use route_rs.Common.{
  is_some, ℕ, List, [], ◌∷◌, ◌++◌, Bool, false, not, Option, none, some, Outcome, ok, ◌>>=◌,
  if◌then◌else◌,
}
use route_rs.Runtime.Crossbeam.{Crossbeam}
use route_rs.Runtime.TaskPark.{Memory, new_memory}
use route_rs.Runtime.Link.{Poll, ready, pending, PacketStream, Port}
use route_rs.Runtime.Link.Queue.{
  QueueIngressor, poll, poll_next, queue_capacity, ingressor, build_link, new, processor,
}

pub data Turn : Type 0 where
  ingress egress : Turn

module _ (cb : Crossbeam) (S A B : Type 0) (process : S → A → Option B × S) where
  open cb use {contents, drop_sender}

  -- `delivered` is what the consumer got: the packets, and `none` for the end.
  pub record Running : Type 0 where
    pub ingressor : Option (QueueIngressor cb S A B process)
    pub port : Port cb B
    pub mem : Memory cb
    pub delivered : List (Option B)
    pub ended : Bool

  -- The two tasks' wakers are 0 and 1.
  abbrev pub settle :
      Running → Poll (Unit {0}) × QueueIngressor cb S A B process × Port cb B × Memory cb → Running
  settle sys (pending, i, port, mem) = record sys { ingressor = some i; port = port; mem = mem }
  settle sys (ready _, i, port, mem) = record sys {
    ingressor = none;
    port = record port { channel = drop_sender port.channel };
    mem = mem;
  }

  unfoldable pub ingress_turn : Running → Outcome Running
  unfolding poll
  ingress_turn sys = elim sys.ingressor [
    | none ↦ ok sys
    | some i ↦ do result ← poll cb S A B process 0 i sys.port sys.mem; ok (settle sys result)
  ]

  abbrev pub deliver : Running → Poll (Option B) × Port cb B × Memory cb → Running
  deliver sys (pending, port, mem) = record sys { port = port; mem = mem }
  deliver sys (ready m, port, mem) = record sys {
    port = port;
    mem = mem;
    delivered = sys.delivered ++ m ∷ [];
    ended = not (is_some m);
  }

  unfoldable pub egress_turn : Running → Running
  unfolding poll_next
  egress_turn sys = if sys.ended then sys else deliver sys (poll_next cb B 1 sys.port sys.mem)

  unfoldable pub run : List Turn → Running → Outcome Running
  unfolding ingress_turn egress_turn
  run [] sys = ok sys
  run (ingress ∷ turns) sys = ingress_turn sys >>= run turns
  run (egress ∷ turns) sys = run turns (egress_turn sys)

  -- A link that the builder makes.
  unfoldable pub start : ℕ → S → PacketStream A → Outcome Running
  unfolding queue_capacity ingressor build_link
  start n s stream = do
    link ← queue_capacity cb S A B process (new cb S A B process) n
    link' ← ingressor cb S A B process (processor cb S A B process link s) stream
    (i, port) ← build_link cb S A B process link'
    ok (record {
      ingressor = some i;
      port = port;
      mem = new_memory cb;
      delivered = [];
      ended = false;
    })
