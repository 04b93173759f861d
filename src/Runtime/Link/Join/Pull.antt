-- ===== src/Runtime/Link/Join/Pull.antt =====
-- What the loop of a join link's egressor takes.
use route_rs.Common.{
  ℕ, zero, suc, ◌+◌, ◌≤◌, ◌<◌, ◌≡◌, refl, sym, ap, subst, ◌∙◌, List, [], ◌∷◌, List-cases, inl, inr,
  Option, none, some, Outcome, ok, err, panic, length, arith,
}
use route_rs.Runtime.Crossbeam.{Crossbeam, IsCrossbeam}
use route_rs.Runtime.TaskPark.{Memory}
use route_rs.Runtime.Link.{Port, unpark}
use route_rs.Runtime.Link.Join.{JoinEgressor, get, set, Pulled, found, all_passed, pull}
use route_rs.Runtime.Link.Join.Counts.{
  waiting, endings, add_at, AllBelow, waits, ends, get_lem, length-set, waits-set, add_at-set,
  ends-set, die_all_lem, length-die_all, alive-cases,
}
use route_rs.Runtime.Link.Join.Branches.{
  popped, contents-popped, answer_lem, pull_none, pull_empty, pull_packet, pull_last, pull_end,
}

module _ (cb : Crossbeam) (law : IsCrossbeam cb) (P : Type 0) where
  open cb use {contents, try_recv}

  -- The egressor after a pull or a poll: the packets before it, the number of ports, and the number of
  -- ingressors whose end is still to come.
  pub record IsBalanced (len running : ℕ) (self : JoinEgressor cb P) : Type 0 where
    pub alive : self.ingressors_alive ≡ running + ends cb P self.ports
    pub ports_count : length self.ports ≡ len

  -- What an answer took.
  abbrev pub HasTaken : List (List P) → Option P → JoinEgressor cb P → Type 0
  HasTaken before (some packet) self =
      (k : ℕ) × (k < length self.ports)
      × (self.next_pull_ingressor ≡ k + 1)
      × (add_at k packet (waits cb P self.ports) ≡ before)
  HasTaken before none self = (self.ingressors_alive ≡ 0) × (waits cb P self.ports ≡ before)

  abbrev pub IsPulled : List (List P) → ℕ → ℕ → Outcome (Pulled cb P) → Type 0
  IsPulled before len running (ok (found m self mem)) =
      IsBalanced len running self × HasTaken before m self
  IsPulled before len running (ok (all_passed self mem)) =
      IsBalanced len running self × (waits cb P self.ports ≡ before)
  IsPulled before len running (err e) = ⊥
  IsPulled before len running panic = ⊥

  pub IsBalanced-set :
      (self : JoinEgressor cb P) (k : ℕ) (port port' : Port cb P) (len running alive next : ℕ)
      → IsBalanced len running self
      → get cb P self.ports k ≡ some port
      → alive + endings (contents port.channel)
        ≡ self.ingressors_alive + endings (contents port'.channel)
      → IsBalanced len running (record {
        ports = set cb P self.ports k port';
        ingressors_alive = alive;
        next_pull_ingressor = next;
      })
  IsBalanced-set self k port port' len running alive next b got e = record {
    alive = omega (arith, b.alive, e, ends-set cb P self.ports k port port' got);
    ports_count = length-set cb P self.ports k port' ∙ b.ports_count;
  }

  -- The ends in a port are among those that are still to be counted.
  pub ends-get :
      (ports : List (Port cb P)) (k : ℕ) (port : Port cb P)
      → get cb P ports k ≡ some port
      → endings (contents port.channel) ≤ ends cb P ports
  unfolding get ends
  ends-get [] k port e = cc
  ends-get (p ∷ ports) zero port e = omega (arith, ap (λ t. endings (contents t.channel)) same)
    where
      same : p ≡ port
      same = cc
  ends-get (p ∷ ports) (suc k) port e = omega (arith, ends-get ports k port e)

  -- The last end, with the packets kept and no ingressor alive.
  pull_last_lem :
      (k : ℕ) (places : List ℕ) (self : JoinEgressor cb P) (mem : Memory cb) (len running : ℕ)
      (port : Port cb P) (messages : List (Option P))
      → IsBalanced len running self
      → get cb P self.ports k ≡ some port
      → contents port.channel ≡ none ∷ messages
      → self.ingressors_alive ≡ 1
      → IsPulled (waits cb P self.ports) len running (pull cb P (k ∷ places) self mem)
  unfolding waiting endings
  pull_last_lem k places self mem len running port messages b got e one =
      let left = contents-popped cb law P port (none ∷ messages) e in
      let ports' = set cb P self.ports k (popped cb law P port) in
      let (w, ends_kept) = die_all_lem cb P ports' mem in
      subst (λ t. IsPulled (waits cb P self.ports) len running t)
        (sym (
          pull_last cb law P k places self mem port got (answer_lem cb law P port none messages e)
            one))
        (
          record {
            alive = omega (
              arith,
              b.alive,
              one,
              ap (λ t. endings t) left,
              ap (λ t. endings t) e,
              ends_kept,
              ends-set cb P self.ports k port (popped cb law P port) got,
            );
            ports_count =
                length-die_all cb P ports' mem
                ∙ length-set cb P self.ports k (popped cb law P port)
                ∙ b.ports_count;
          },
          (
            refl,
            w
                ∙ waits-set cb P self.ports k port (popped cb law P port) got
                    (ap (λ t. waiting t) left ∙ sym (ap (λ t. waiting t) e)),
          ),
        )

  pub pull_lem :
      (places : List ℕ) (self : JoinEgressor cb P) (mem : Memory cb) (len running : ℕ)
      → AllBelow len places
      → IsBalanced len running self
      → IsPulled (waits cb P self.ports) len running (pull cb P places self mem)
  unfolding AllBelow waiting endings
  pull_lem [] self mem len running below b =
      subst (λ t. IsPulled (waits cb P self.ports) len running t)
        (sym (pull_none cb law P self mem)) (b, refl)
  pull_lem (k ∷ places) self mem len running (lt, below) b =
      let (port, got) = get_lem cb P self.ports k (omega (arith, lt, b.ports_count)) in
      elim (List-cases (contents port.channel)) [
        | inl e ↦
            let left = contents-popped cb law P port [] e in
            let self' = record self { ports = set cb P self.ports k (popped cb law P port) } in
            subst (λ t. IsPulled (waits cb P self.ports) len running t)
              (sym (pull_empty cb law P k places self mem port got e))
              (subst (λ t. IsPulled t len running (pull cb P places self' mem))
                (waits-set cb P self.ports k port (popped cb law P port) got
                  (ap (λ t. waiting t) left ∙ sym (ap (λ t. waiting t) e)))
                (pull_lem places self' mem len running below (
                  IsBalanced-set self k port (popped cb law P port) len running _ _ b got
                    (omega (arith, ap (λ t. endings t) left, ap (λ t. endings t) e)))))
        | inr (some packet, messages, e) ↦
            let left = contents-popped cb law P port (some packet ∷ messages) e in
            let (awake, mem') = unpark cb P (popped cb law P port) mem in
            subst (λ t. IsPulled (waits cb P self.ports) len running t)
              (sym (
                pull_packet cb law P k places self mem port packet got
                  (answer_lem cb law P port (some packet) messages e)))
              (
                IsBalanced-set self k port awake len running _ _ b got
                    (omega (arith, ap (λ t. endings t) left, ap (λ t. endings t) e)),
                (
                  k,
                  omega (arith, lt, b.ports_count, length-set cb P self.ports k awake),
                  refl,
                  add_at-set cb P self.ports k port awake packet got
                      (ap (λ t. packet ∷ waiting t) left ∙ sym (ap (λ t. waiting t) e)),
                ),
              )
        | inr (none, messages, e) ↦
            let left = contents-popped cb law P port (none ∷ messages) e in
            let ended : endings (contents port.channel)
                ≡ endings (contents (popped cb law P port).channel) + 1 =
              omega (arith, ap (λ t. endings t) left, ap (λ t. endings t) e) in
            let kept =
              waits-set cb P self.ports k port (popped cb law P port) got
                (ap (λ t. waiting t) left ∙ sym (ap (λ t. waiting t) e)) in
            elim (alive-cases self.ingressors_alive
              (omega (arith, b.alive, ends-get self.ports k port got, ap (λ t. endings t) e))) [
                | inl one ↦ pull_last_lem k places self mem len running port messages b got e one
                | inr (alive, more) ↦
                    let self' = record self {
                      ports = set cb P self.ports k (popped cb law P port);
                      ingressors_alive = suc alive;
                    } in
                    subst (λ t. IsPulled (waits cb P self.ports) len running t)
                      (sym (
                        pull_end cb law P k places self mem port alive got
                          (answer_lem cb law P port none messages e) more))
                      (subst (λ t. IsPulled t len running (pull cb P places self' mem)) kept
                        (pull_lem places self' mem len running below (
                          IsBalanced-set self k port (popped cb law P port) len running _ _ b got
                            (omega (arith, ended, more)))))
              ]
      ]
