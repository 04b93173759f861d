-- ===== src/Runtime/Link/Tests.antt =====
-- The links on concrete streams, over channels that are lists.
use route_rs.Common.{
  ◌<◌, ℕ, zero, suc, ◌+◌, ◌≤◌, ◌≡◌, refl, List, [], ◌∷◌, ◌++◌, Bool, true, false, ◌&&◌,
  if◌then◌else◌, leb, length, Option, none, some, ok, ◌>>=◌, arith,
}
use route_rs.Runtime.Crossbeam.Queues.{queues, queues-IsCrossbeam}
use route_rs.Runtime.TaskPark.{Memory, new_memory, parked, empty}
use route_rs.Runtime.TaskPark.Swaps.{IsDirect}
use route_rs.Runtime.Link.{ready, pending, PacketStream, Port, new_port}
use route_rs.Runtime.Link.Ports.{new_ports}
use route_rs.Runtime.Link.Ports.Routing.{AreOpen-new_ports}
use route_rs.Runtime.Link.Fork
use route_rs.Runtime.Link.Fork.Copies.{every, IsForked, fork_copies}
use route_rs.Runtime.Link.Classify
use route_rs.Runtime.Link.Classify.Dispatch.{for_port, IsDispatched, classify_dispatches}
use route_rs.Runtime.Link.Join
use route_rs.Runtime.Link.Join.Ingress.{keep, of_queue, join_ingressor}
use route_rs.Runtime.Link.Join.Counts.{ends, endings}
use route_rs.Runtime.Link.Join.Pull.{IsBalanced}
use route_rs.Runtime.Link.Join.Egress.{IsAnswered, join_egressor}
use route_rs.Runtime.Link.Process
use route_rs.Runtime.Link.Process.Chain.{chain, process_chain}
use route_rs.Runtime.Link.Channels
use route_rs.Runtime.Link.Channels.Transport.{IsSent, packets, output_transports}
use route_rs.Runtime.Link.Queue.Watch.{Watched, watched_run}
use route_rs.Runtime.Link.Queue.Waiting.{watch, queue_sleepers}
use route_rs.Runtime.Link.Queue
use route_rs.Runtime.Link.Queue.Order.{outputs, IsPolled}
use route_rs.Runtime.Link.Queue.Progress.{HasStopped, queue_progress}
use route_rs.Runtime.Link.Sending.{IsOpen-new_port}
use route_rs.Runtime.Link.Queue.Run.{Running, ingress, egress, Turn, start, run}
use route_rs.Runtime.Link.Queue.Delivery.{run_delivers}

-- A processor that counts, and drops its second packet.
abbrev process : ℕ → ℕ → Option ℕ × ℕ
process (suc zero) a = (none, 2)
process s a = (some (a + s), s + 1)

abbrev stream : PacketStream ℕ
stream =
    ready (some 10)
    ∷ pending
    ∷ ready (some 20)
    ∷ ready (some 30)
    ∷ ready (some 40)
    ∷ ready none
    ∷ []

abbrev turns : List Turn
turns = ingress ∷ egress ∷ egress ∷ ingress ∷ ingress ∷ egress ∷ ingress ∷ egress ∷ egress ∷ []

run_delivers_example :
    (sys : Running queues ℕ ℕ ℕ process) × ((start queues ℕ ℕ ℕ process 1 0 stream
        >>= run queues ℕ ℕ ℕ process turns)
      ≡ ok sys)
    × (length sys.port.channel.messages ≤ 1)
    × ((later : List (Option ℕ)) × (sys.delivered ++ later ≡ outputs process 0 stream))
    × (sys.ended ≡ true → sys.delivered ≡ outputs process 0 stream)
run_delivers_example =
    run_delivers queues queues-IsCrossbeam ℕ ℕ ℕ process 1 0 stream turns (omega arith)

abbrev delivered : List (Option ℕ)
delivered = some 10 ∷ some 32 ∷ some 43 ∷ none ∷ []

outputs_run : outputs process 0 stream ≡ delivered
unfolding outputs
outputs_run = refl

queue_sleepers_example :
    (w : Watched queues ℕ ℕ ℕ process) × ((start queues ℕ ℕ ℕ process 1 0 stream >>= λ sys.
    watched_run queues ℕ ℕ ℕ process turns (watch queues queues-IsCrossbeam ℕ ℕ ℕ process 1 sys))
      ≡ ok w)
    × (w.ingress_waits ≡ true → w.running.port.task_park ≡ parked 0)
    × (w.egress_waits ≡ true
        → (w.running.port.task_park ≡ parked 1) × (w.running.port.channel.messages ≡ []))
    × ((w.ingress_waits && w.egress_waits) ≡ false)
queue_sleepers_example =
    queue_sleepers queues queues-IsCrossbeam ℕ ℕ ℕ process 1 0 stream turns (omega arith)

abbrev memory : Memory queues
memory = new_memory queues

abbrev fork : Fork.ForkIngressor queues ℕ
fork = record { input_stream = stream; ports = new_ports queues ℕ 4 2 }

fork_copies_example :
    IsForked queues queues-IsCrossbeam ℕ 4 fork.input_stream fork.ports
      (Fork.poll queues ℕ 0 fork memory)
fork_copies_example =
    fork_copies queues queues-IsCrossbeam ℕ 4 0 fork memory
      (AreOpen-new_ports queues queues-IsCrossbeam ℕ every 4 2)

abbrev classify : Classify.ClassifyIngressor queues ℕ Bool
classify = record {
  input_stream = stream;
  dispatch = λ large. if large then 1 else 0;
  classify = λ a. leb 25 a;
  ports = new_ports queues ℕ 4 2;
}

dispatch-lt : (large : Bool) → (if large then 1 else 0) < 2
dispatch-lt true = omega arith
dispatch-lt false = omega arith

ports_count : length (new_ports queues ℕ 4 2) ≡ 2
unfolding new_ports
ports_count = refl

classify_dispatches_example :
    IsDispatched queues queues-IsCrossbeam ℕ Bool classify.classify classify.dispatch 4
      classify.input_stream classify.ports
      (Classify.poll queues ℕ Bool 0 classify memory)
classify_dispatches_example =
    classify_dispatches queues queues-IsCrossbeam ℕ Bool 4 0 classify memory
      (AreOpen-new_ports queues queues-IsCrossbeam ℕ (for_port classify.classify classify.dispatch)
        4 2)
      (λ large. omega (arith, dispatch-lt large, ports_count))

abbrev port_of : List (Option ℕ) → Port queues ℕ
port_of messages = record {
  channel = record { messages = messages; bound = 4; has_receiver = true; has_sender = true };
  task_park = empty;
}

-- The second ingressor has sent its end.
abbrev join : Join.JoinEgressor queues ℕ
join = record {
  ports = port_of [] ∷ port_of (none ∷ []) ∷ port_of (some 7 ∷ some 8 ∷ []) ∷ [];
  ingressors_alive = 3;
  next_pull_ingressor = 1;
}

join-IsBalanced : IsBalanced queues queues-IsCrossbeam ℕ 3 2 join
unfolding ends endings
join-IsBalanced = record { alive = refl; ports_count = refl }

join_egressor_example :
    IsAnswered queues queues-IsCrossbeam ℕ join.ports join.next_pull_ingressor 2
      (Join.poll_next queues ℕ 0 join memory)
join_egressor_example =
    join_egressor queues queues-IsCrossbeam ℕ 0 join memory 2 (omega arith) join-IsBalanced

join_ingressor_example : Join.poll queues ℕ 0 stream (port_of []) memory ≡ (
    Queue.poll queues
      (Unit {0})
      ℕ
      ℕ
      keep
      0
      (record { input_stream = stream; processor = tt })
      (port_of [])
      memory
    >>= of_queue queues ℕ)
join_ingressor_example = join_ingressor queues ℕ 0 stream (port_of []) memory

abbrev runner : Process.ProcessRunner ℕ ℕ ℕ process
runner = record { in_stream = stream; processor = 0 }

process_chain_example :
    outputs process 5 (Process.answers ℕ ℕ ℕ process 6 runner)
    ≡ outputs (chain ℕ ℕ ℕ ℕ ℕ process process) (0, 5) stream
process_chain_example = process_chain ℕ ℕ ℕ ℕ ℕ process process 6 runner 5 (omega arith)

abbrev to_channel : Channels.StreamToChannel queues ℕ
to_channel = record {
  stream = stream;
  channel_sender = record { messages = []; bound = 2; has_receiver = true; has_sender = true };
}

output_transports_example :
    IsSent queues queues-IsCrossbeam ℕ 0 stream
      (packets stream)
      (Channels.poll queues ℕ 0 to_channel memory)
output_transports_example =
    output_transports queues queues-IsCrossbeam ℕ 0 to_channel memory refl (omega arith)

direct : IsDirect (parked 3)
unfolding IsDirect
direct = tt

queue_progress_example :
    IsPolled queues queues-IsCrossbeam ℕ ℕ ℕ process 2 (outputs process 0 stream) (
      Queue.poll queues ℕ ℕ ℕ process 0
        (record { input_stream = stream; processor = 0 })
        (new_port queues ℕ 2)
        memory)
    × HasStopped queues ℕ ℕ ℕ process stream (
        Queue.poll queues ℕ ℕ ℕ process 0
          (record { input_stream = stream; processor = 0 })
          (new_port queues ℕ 2)
          memory)
queue_progress_example =
    queue_progress queues queues-IsCrossbeam ℕ ℕ ℕ process 2 0
      (record { input_stream = stream; processor = 0 }) (new_port queues ℕ 2) memory
      (IsOpen-new_port queues queues-IsCrossbeam ℕ 2)
