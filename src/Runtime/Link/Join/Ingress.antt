-- ===== src/Runtime/Link/Join/Ingress.antt =====
-- An ingressor of a join link is that of a queue link with a processor that keeps every packet.
use route_rs.Common.{◌≡◌, [], ◌∷◌, Bool-cases, inl, inr, Option, none, some, ok, ◌>>=◌}
use route_rs.Runtime.Crossbeam.{Crossbeam}
use route_rs.Runtime.TaskPark.{Waker, Memory}
use route_rs.Runtime.Link.{Poll, ready, pending, PacketStream, Port, unpark}
use route_rs.Runtime.Link.Queue.{QueueIngressor, poll_loop}
use route_rs.Runtime.Link.Queue
use route_rs.Runtime.Link.Join.{poll, Polled}

abbrev pub keep : {P : Type 0} → Unit {0} → P → Option P × Unit {0}
keep s packet = (some packet, s)

module _ (cb : Crossbeam) (P : Type 0) where
  abbrev pub of_queue :
      Poll (Unit {0}) × QueueIngressor cb (Unit {0}) P P keep × Port cb P × Memory cb → Polled cb P
  of_queue (answer, i, port, mem) = ok (answer, i.input_stream, port, mem)

  poll_loop_lem :
      (task : Waker) (stream : PacketStream P) (port : Port cb P) (mem : Memory cb)
      → poll cb P task stream port mem
        ≡ (poll_loop cb (Unit {0}) P P keep task stream tt port mem >>= of_queue)
  unfolding poll poll_loop
  poll_loop_lem task [] port mem = elim (Bool-cases (cb.is_full port.channel)) [
    | inl e ↦ rw (poll, poll_loop, e)
    | inr e ↦ rw (poll, poll_loop, e)
  ]
  poll_loop_lem task (pending ∷ stream) port mem = elim (Bool-cases (cb.is_full port.channel)) [
    | inl e ↦ rw (poll, poll_loop, e)
    | inr e ↦ rw (poll, poll_loop, e)
  ]
  poll_loop_lem task (ready none ∷ stream) port mem = elim (Bool-cases (cb.is_full port.channel)) [
    | inl e ↦ rw (poll, poll_loop, e)
    | inr e ↦ elim (Bool-cases (cb.try_send port.channel none).0) [
      | inl sent ↦ rw (poll, poll_loop, e, sent)
      | inr refused ↦ rw (poll, poll_loop, e, refused)
    ]
  ]
  poll_loop_lem task (ready (some packet) ∷ stream) port mem =
      elim (Bool-cases (cb.is_full port.channel)) [
        | inl e ↦ rw (poll, poll_loop, e)
        | inr e ↦ elim (Bool-cases (cb.try_send port.channel (some packet)).0) [
          | inl sent ↦
              let port' = record port { channel = (cb.try_send port.channel (some packet)).1 } in
              let (awake, mem') = unpark cb P port' mem in
              rw (poll, poll_loop, e, sent) (poll_loop_lem task stream awake mem')
          | inr refused ↦ rw (poll, poll_loop, e, refused)
        ]
      ]

  -- A poll of a join link's ingressor is a poll of a queue link's ingressor with a processor that
  -- keeps every packet, without the state of that processor.
  pub join_ingressor :
      (task : Waker) (stream : PacketStream P) (port : Port cb P) (mem : Memory cb)
      → poll cb P task stream port mem ≡ (
          Queue.poll cb
            (Unit {0})
            P
            P
            keep
            task
            (record { input_stream = stream; processor = tt })
            port
            mem
          >>= of_queue)
  unfolding Queue.poll
  join_ingressor task stream port mem = poll_loop_lem task stream port mem
