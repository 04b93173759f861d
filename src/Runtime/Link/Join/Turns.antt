-- ===== src/Runtime/Link/Join/Turns.antt =====
-- The order in which a join link's egressor looks at its ports.
use native.Mathlib.Nat.{mod-lt, mod-add-mod, add-mod-mod, add-mod_right, mod-eq_of_lt}
use mathlib.Core.Option.{some_inj}
use route_rs.Common.{
  ℕ, suc, ◌+◌, ◌-◌, ◌%◌, ◌<◌, ◌≡◌, refl, sym, ap, subst, ◌∙◌, List, [], ◌∷◌, List-cases, inl, inr,
  none, some, Outcome, ok, err, panic, length, arith,
}
use route_rs.Runtime.Crossbeam.{Crossbeam, IsCrossbeam}
use route_rs.Runtime.TaskPark.{Memory}
use route_rs.Runtime.Link.{Port}
use route_rs.Runtime.Link.Join.{JoinEgressor, rotated, get, set, Pulled, found, all_passed, pull}
use route_rs.Runtime.Link.Join.Branches.{
  popped, contents-popped, answer_lem, pull_none, pull_empty, pull_packet, pull_last, pull_end,
}
use route_rs.Runtime.Link.Join.Counts.{endings, AllBelow, get_lem, alive-cases, rotated_lem}
use route_rs.Runtime.Link.Join.Pull.{IsBalanced, IsBalanced-set, ends-get}
use route_rs.Runtime.Link.Join.Places.{
  front, IsIdle, HasTurn, Reaches, AllIdle, Reaches-rotated, AllIdle-rotated, IsSought,
  IsSought-set,
}

-- Every place has its turn.
turn_of : (next len k : ℕ) → k < len → (i : ℕ) × (i < len) × ((next + i) % len ≡ k)
turn_of next len k lt =
    let some_ports : 0 < len = omega (arith, lt) in
    let back = k + (len - next % len) in
    let around : next % len + back ≡ k + len = omega (arith, mod-lt next some_ports) in
    (
      back % len,
      mod-lt back some_ports,
      add-mod-mod next back len
          ∙ sym (mod-add-mod next len back)
          ∙ ap (λ t. t % len) around
          ∙ add-mod_right k len
          ∙ mod-eq_of_lt lt,
    )

module _ (cb : Crossbeam) (law : IsCrossbeam cb) (P : Type 0) where
  open cb use {contents}

  idle :
      (ports : List (Port cb P)) (k : ℕ) (port : Port cb P)
      → get cb P ports k ≡ some port
      → front (contents port.channel) ≡ none
      → IsIdle cb P ports k
  idle ports k port got e port' got' =
      subst (λ (t : Port cb P). front (contents t.channel) ≡ none) (some_inj.0 (sym got ∙ got')) e

  -- The loop takes a packet from the first place of those with a packet in front.
  pull-IsSought :
      (places : List ℕ) (self : JoinEgressor cb P) (mem : Memory cb) (len running : ℕ)
      → AllBelow len places
      → IsBalanced cb law P len running self
      → IsSought cb P self.ports places self.next_pull_ingressor (pull cb P places self mem)
  unfolding AllBelow Reaches AllIdle endings
  pull-IsSought [] self mem len running below b =
      subst (λ t. IsSought cb P self.ports [] self.next_pull_ingressor t)
        (sym (pull_none cb law P self mem)) (tt, refl)
  pull-IsSought (k ∷ places) self mem len running (lt, below) b =
      let next = self.next_pull_ingressor in
      let (port, got) = get_lem cb P self.ports k (omega (arith, lt, b.ports_count)) in
      let passed = popped cb law P port in
      elim (List-cases (contents port.channel)) [
        | inl e ↦
            let left = contents-popped cb law P port [] e in
            let self' = record self { ports = set cb P self.ports k passed } in
            subst (λ t. IsSought cb P self.ports (k ∷ places) next t)
              (sym (pull_empty cb law P k places self mem port got e))
              (IsSought-set cb P self.ports k passed places next (pull cb P places self' mem)
                (idle self.ports k port got (ap (λ t. front t) e))
                (pull-IsSought places self' mem len running below (
                  IsBalanced-set cb law P self k port passed len running _ _ b got
                    (omega (arith, ap (λ t. endings t) left, ap (λ t. endings t) e)))))
        | inr (some packet, messages, e) ↦
            subst (λ t. IsSought cb P self.ports (k ∷ places) next t)
              (sym (
                pull_packet cb law P k places self mem port packet got
                  (answer_lem cb law P port (some packet) messages e)))
              (k, inl refl, refl)
        | inr (none, messages, e) ↦
            let left = contents-popped cb law P port (none ∷ messages) e in
            elim (alive-cases self.ingressors_alive (
              omega
                (arith, b.alive, ends-get cb law P self.ports k port got, ap (λ t. endings t) e))) [
                  | inl one ↦
                      subst (λ t. IsSought cb P self.ports (k ∷ places) next t)
                        (sym (
                          pull_last cb law P k places self mem port got
                            (answer_lem cb law P port none messages e) one))
                        tt
                  | inr (alive, more) ↦
                      let self' = record self {
                        ports = set cb P self.ports k passed;
                        ingressors_alive = suc alive;
                      } in
                      subst (λ t. IsSought cb P self.ports (k ∷ places) next t)
                        (sym (
                          pull_end cb law P k places self mem port alive got
                            (answer_lem cb law P port none messages e) more))
                        (IsSought-set cb P self.ports k passed places next
                          (pull cb P places self' mem)
                          (idle self.ports k port got (ap (λ t. front t) e))
                          (pull-IsSought places self' mem len running below (
                            IsBalanced-set cb law P self k port passed len running _ _ b got (
                              omega
                                (arith, ap (λ t. endings t) left, ap (λ t. endings t) e, more)))))
                ]
      ]

  -- What a poll's loop took, in turns.
  abbrev pub IsTurned : List (Port cb P) → ℕ → Outcome (Pulled cb P) → Type 0
  IsTurned ports next (ok (found (some packet) self mem)) =
      (k : ℕ) × HasTurn cb P ports next k × (self.next_pull_ingressor ≡ k + 1)
  IsTurned ports next (ok (found none self mem)) = Unit
  IsTurned ports next (ok (all_passed self mem)) =
      ((k : ℕ) → k < length ports → IsIdle cb P ports k) × (self.next_pull_ingressor ≡ next)
  IsTurned ports next _ = Unit

  turned :
      (ports : List (Port cb P)) (next : ℕ) (m : Outcome (Pulled cb P))
      → IsSought cb P ports (rotated (length ports) next (length ports)) next m
      → IsTurned ports next m
  turned ports next (ok (found (some packet) self mem)) (k, h, e) =
      (k, Reaches-rotated cb P ports (length ports) next (length ports) k h, e)
  turned ports next (ok (found none self mem)) h = tt
  turned ports next (ok (all_passed self mem)) (h, e) = (
    λ k lt.
        let (i, below, at) = turn_of next (length ports) k lt in
        subst (λ t. IsIdle cb P ports t) at
          (AllIdle-rotated cb P ports (length ports) next (length ports) h i below),
    e,
  )
  turned ports next (err e) h = tt
  turned ports next panic h = tt

  pub pull-IsTurned :
      (self : JoinEgressor cb P) (mem : Memory cb) (running : ℕ)
      → 0 < length self.ports
      → IsBalanced cb law P (length self.ports) running self
      → let len = length self.ports in
        IsTurned self.ports self.next_pull_ingressor
          (pull cb P (rotated len self.next_pull_ingressor len) self mem)
  pull-IsTurned self mem running lt b =
      let len = length self.ports in
      let next = self.next_pull_ingressor in
      turned self.ports next (pull cb P (rotated len next len) self mem)
        (pull-IsSought (rotated len next len) self mem len running (rotated_lem len next len lt) b)
