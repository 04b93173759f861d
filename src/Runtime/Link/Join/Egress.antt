-- ===== src/Runtime/Link/Join/Egress.antt =====
-- What a poll of a join link's egressor takes from the ports.
use route_rs.Common.{
  ℕ, ◌+◌, ◌<◌, ◌≡◌, sym, ap, subst, ◌∙◌, List, false, Option, none, some, Outcome, ok, err, panic,
  ◌>>=◌, length, arith,
}
use route_rs.Runtime.Crossbeam.{Crossbeam, IsCrossbeam}
use route_rs.Runtime.TaskPark.{Waker, Memory, allocate}
use route_rs.Runtime.Link.{Poll, ready, pending, Port}
use route_rs.Runtime.Link.Join.{
  JoinEgressor, rotated, Pulled, found, all_passed, pull, poll_next, finish,
}
use route_rs.Runtime.Link.Join.Counts.{
  add_at, waits, length-park_at_all, park_at_all_lem, rotated_lem,
}
use route_rs.Runtime.Link.Join.Pull.{IsBalanced, IsPulled, pull_lem}
use route_rs.Runtime.Link.Join.Places.{HasTurn, IsIdle}
use route_rs.Runtime.Link.Join.Turns.{IsTurned, pull-IsTurned}

module _ (cb : Crossbeam) (law : IsCrossbeam cb) (P : Type 0) where
  -- What an answer of the egressor tells, from the ports and the place of the next pull before it.
  abbrev pub IsAnswered :
      List (Port cb P) → ℕ → ℕ → Outcome (Poll (Option P) × JoinEgressor cb P × Memory cb) → Type 0
  IsAnswered ports next running (ok (ready (some packet), self, mem)) =
      IsBalanced cb law P (length ports) running self
      × ((k : ℕ) × HasTurn cb P ports next k
          × (self.next_pull_ingressor ≡ k + 1)
          × (add_at k packet (waits cb P self.ports) ≡ waits cb P ports))
  IsAnswered ports next running (ok (ready none, self, mem)) =
      IsBalanced cb law P (length ports) running self
      × (self.ingressors_alive ≡ 0)
      × (waits cb P self.ports ≡ waits cb P ports)
  IsAnswered ports next running (ok (pending, self, mem)) =
      IsBalanced cb law P (length ports) running self
      × (waits cb P self.ports ≡ waits cb P ports)
      × (self.next_pull_ingressor ≡ next)
      × ((k : ℕ) → k < length ports → IsIdle cb P ports k)
  IsAnswered ports next running (err e) = ⊥
  IsAnswered ports next running panic = ⊥

  finish_lem :
      (task : Waker) (m : Outcome (Pulled cb P)) (ports : List (Port cb P)) (next running : ℕ)
      → IsPulled cb law P (waits cb P ports) (length ports) running m
      → IsTurned cb law P ports next m
      → IsAnswered ports next running (m >>= λ pulled. ok (finish cb P task pulled))
  unfolding finish
  finish_lem task (ok (found (some packet) self mem)) ports next running (b, (k, lt, e, w))
        (k', turn, e') =
      let same : k ≡ k' = omega (arith, e, e') in
      (
        b,
        (
          k',
          turn,
          e',
          subst (λ t. add_at t packet (waits cb P self.ports) ≡ waits cb P ports) same w,
        ),
      )
  finish_lem task (ok (found none self mem)) ports next running (b, (over, kept)) turn =
      (b, over, kept)
  finish_lem task (ok (all_passed self mem)) ports next running (b, kept) (idle, unmoved) =
      let (a, mem') = allocate cb (some task) mem in
      let (w, e) = park_at_all_lem cb P a self.ports false mem' in
      (
        record {
          alive = b.alive ∙ ap (λ t. running + t) (sym e);
          ports_count = length-park_at_all cb P a self.ports false mem' ∙ b.ports_count;
        },
        w ∙ kept,
        unmoved,
        idle,
      )
  finish_lem task (err e) ports next running h turn = absurd h
  finish_lem task panic ports next running h turn = absurd h

  -- Over channels that behave as documented, a poll of a join link's egressor with at least one
  -- port, whose count of ingressors alive is that of the ingressors still running and of the ends
  -- in its ports, never panics and keeps that count. Where it gives a packet, that is the first
  -- waiting packet of one port, and all other waiting packets stay; that port is the first around
  -- the list of ports, from the place of the next pull on, for which no port before it has a
  -- packet in front of its channel; and the place of the next pull is then the one behind it.
  -- Where it gives the end, the count is 0 and the waiting packets stay. Where it is pending, no
  -- port has a packet in front of its channel, and the waiting packets and the place of the next
  -- pull stay.
  pub join_egressor :
      (task : Waker) (self : JoinEgressor cb P) (mem : Memory cb) (running : ℕ)
      → 0 < length self.ports
      → IsBalanced cb law P (length self.ports) running self
      → IsAnswered self.ports self.next_pull_ingressor running (poll_next cb P task self mem)
  unfolding poll_next
  join_egressor task self mem running lt b =
      let len = length self.ports in
      let next = self.next_pull_ingressor in
      let places = rotated len next len in
      finish_lem task (pull cb P places self mem) self.ports next running
        (pull_lem cb law P places self mem len running (rotated_lem len next len lt) b)
        (pull-IsTurned cb law P self mem running lt b)
