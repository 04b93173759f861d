-- ===== src/Runtime/Link/Join/Branches.antt =====
-- One round of the loop of a join link's egressor, for each answer of the channel.
use route_rs.Common.{
  ℕ, suc, ◌+◌, ◌≡◌, ◌==◌, refl, ap, ap₂, ◌∙◌, List, [], ◌∷◌, false, Bool-cases, inl, inr, Option,
  none, some, ok, ◌>>=◌, arith, some_or_panic,
}
use route_rs.Runtime.Crossbeam.{Crossbeam, IsCrossbeam, message, first, rest}
use route_rs.Runtime.TaskPark.{Memory}
use route_rs.Runtime.Link.{Port, unpark}
use route_rs.Runtime.Link.Join.{JoinEgressor, get, set, die_all, found, all_passed, pull}

module _ (cb : Crossbeam) (law : IsCrossbeam cb) (P : Type 0) where
  open cb use {contents, try_recv}

  abbrev pub popped : Port cb P → Port cb P
  popped port = record port { channel = (try_recv port.channel).1 }

  pub contents-popped :
      (port : Port cb P) (messages : List (Option P))
      → contents port.channel ≡ messages
      → contents (popped port).channel ≡ rest messages
  contents-popped port messages e = law.contents-try_recv port.channel ∙ ap (λ t. rest t) e

  pub answer_lem :
      (port : Port cb P) (m : Option P) (messages : List (Option P))
      → contents port.channel ≡ m ∷ messages
      → (try_recv port.channel).0 ≡ message m
  answer_lem port m messages e =
      law.received port.channel ∙ ap (λ t. first t (cb.sending port.channel)) e

  pub pull_none :
      (self : JoinEgressor cb P) (mem : Memory cb)
      → pull cb P [] self mem ≡ ok (all_passed self mem)
  unfolding pull
  pull_none self mem = refl

  -- An empty port is passed.
  pub pull_empty :
      (k : ℕ) (places : List ℕ) (self : JoinEgressor cb P) (mem : Memory cb) (port : Port cb P)
      → get cb P self.ports k ≡ some port
      → contents port.channel ≡ []
      → pull cb P (k ∷ places) self mem
        ≡ pull cb P places (record self { ports = set cb P self.ports k (popped port) }) mem
  unfolding pull
  pull_empty k places self mem port got e = elim (Bool-cases (cb.sending port.channel)) [
    | inl alive ↦
        rw (pull, got, some_or_panic, ◌>>=◌, law.received port.channel ∙ ap₂ first e alive)
    | inr gone ↦ rw (pull, got, some_or_panic, ◌>>=◌, law.received port.channel ∙ ap₂ first e gone)
  ]

  -- A packet is taken.
  pub pull_packet :
      (k : ℕ) (places : List ℕ) (self : JoinEgressor cb P) (mem : Memory cb) (port : Port cb P)
      (packet : P)
      → get cb P self.ports k ≡ some port
      → (try_recv port.channel).0 ≡ message (some packet)
      → pull cb P (k ∷ places) self mem
        ≡ ok (
            found
              (some packet)
              (record self {
                ports = set cb P self.ports k (unpark cb P (popped port) mem).0;
                next_pull_ingressor = k + 1;
              })
              (unpark cb P (popped port) mem).1)
  unfolding pull
  pull_packet k places self mem port packet got e = rw (pull, got, some_or_panic, ◌>>=◌, e)

  -- The last end is the end of the link.
  pub pull_last :
      (k : ℕ) (places : List ℕ) (self : JoinEgressor cb P) (mem : Memory cb) (port : Port cb P)
      → get cb P self.ports k ≡ some port
      → (try_recv port.channel).0 ≡ message none
      → self.ingressors_alive ≡ 1
      → pull cb P (k ∷ places) self mem
        ≡ ok (
            found none
              (record self {
                ports = (die_all cb P (set cb P self.ports k (popped port)) mem).0;
                ingressors_alive = 0;
              })
              (die_all cb P (set cb P self.ports k (popped port)) mem).1)
  unfolding pull
  pull_last k places self mem port got e alive = rw (pull, got, some_or_panic, ◌>>=◌, e, alive)

  -- Another end is passed.
  pub pull_end :
      (k : ℕ) (places : List ℕ) (self : JoinEgressor cb P) (mem : Memory cb) (port : Port cb P)
      (alive : ℕ)
      → get cb P self.ports k ≡ some port
      → (try_recv port.channel).0 ≡ message none
      → self.ingressors_alive ≡ suc (suc alive)
      → pull cb P (k ∷ places) self mem
        ≡ pull cb P places
            (record self {
              ports = set cb P self.ports k (popped port);
              ingressors_alive = suc alive;
            })
            mem
  unfolding pull
  pull_end k places self mem port alive got e h = rw (pull, got, some_or_panic, ◌>>=◌, e, h, more)
    where
      more : (suc alive == 0) ≡ false
      more = ground arith
