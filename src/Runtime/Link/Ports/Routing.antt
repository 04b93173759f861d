-- ===== src/Runtime/Link/Ports/Routing.antt =====
-- What a link puts into the channel of each of its ports, in terms of its stream.
use route_rs.Common.{
  ℕ, zero, suc, ◌+◌, ◌≡◌, refl, ◌∙◌, List, [], ◌∷◌, ◌++◌, Bool, Option, none, some, length, arith,
  if◌then◌else◌,
}
use route_rs.Runtime.Crossbeam.{Crossbeam, IsCrossbeam}
use route_rs.Runtime.Link.{ready, pending, PacketStream, Port}
use route_rs.Runtime.Link.Sending.{IsOpen, IsOpen-new_port}
use route_rs.Runtime.Link.Ports.{new_ports}

-- The messages of a stream for a port: the packets that a test selects, and `none` at the end.
unfoldable pub routed : {P : Type 0} → (P → Bool) → PacketStream P → List (Option P)
routed selects [] = []
routed selects (pending ∷ stream) = routed selects stream
routed selects (ready none ∷ stream) = none ∷ []
routed selects (ready (some packet) ∷ stream) =
    let more = routed selects stream in if selects packet then some packet ∷ more else more

module _ (cb : Crossbeam) (law : IsCrossbeam cb) (P : Type 0) (selects : ℕ → P → Bool) (n : ℕ) where
  open cb use {contents}

  -- The ports, numbered from `k`, are open.
  unfoldable pub AreOpen : List (Port cb P) → Type 0
  AreOpen [] = Unit
  AreOpen (port ∷ ports) = IsOpen cb law P n port.channel × AreOpen ports

  -- Each port, numbered from `k`, has got the part of the stream that is for it, up to what is left.
  unfoldable pub HasRouted :
      ℕ → PacketStream P → PacketStream P → List (Port cb P) → List (Port cb P) → Type 0
  HasRouted k stream left [] [] = Unit
  HasRouted k stream left (port ∷ ports) (port' ∷ ports') =
      (contents port'.channel ++ routed (selects k) left
        ≡ contents port.channel ++ routed (selects k) stream)
      × HasRouted (k + 1) stream left ports ports'
  HasRouted k stream left _ _ = ⊥

  pub AreOpen-new_ports : (c : ℕ) → AreOpen (new_ports cb P n c)
  unfolding AreOpen new_ports
  AreOpen-new_ports zero = tt
  AreOpen-new_ports (suc c) = (IsOpen-new_port cb law P n, AreOpen-new_ports c)

  pub HasRouted-refl :
      (k : ℕ) (stream : PacketStream P) (ports : List (Port cb P))
      → HasRouted k stream stream ports ports
  unfolding HasRouted
  HasRouted-refl k stream [] = tt
  HasRouted-refl k stream (port ∷ ports) = (refl, HasRouted-refl (k + 1) stream ports)

  pub HasRouted-pending :
      (k : ℕ) (stream : PacketStream P) (ports : List (Port cb P))
      → HasRouted k (pending ∷ stream) stream ports ports
  unfolding HasRouted routed
  HasRouted-pending k stream [] = tt
  HasRouted-pending k stream (port ∷ ports) = (refl, HasRouted-pending (k + 1) stream ports)

  pub HasRouted-trans :
      (k : ℕ) (stream left less : PacketStream P) (ports ports' ports'' : List (Port cb P))
      → HasRouted k stream left ports ports'
      → HasRouted k left less ports' ports''
      → HasRouted k stream less ports ports''
  unfolding HasRouted
  HasRouted-trans k stream left less [] [] [] h h' = tt
  HasRouted-trans k stream left less (p ∷ ps) (p' ∷ ps') (p'' ∷ ps'') (e, h) (e', h') =
      (e' ∙ e, HasRouted-trans (k + 1) stream left less ps ps' ps'' h h')
  HasRouted-trans k stream left less [] [] (p'' ∷ ps'') h h' = absurd h'
  HasRouted-trans k stream left less [] (p' ∷ ps') ps'' h h' = absurd h
  HasRouted-trans k stream left less (p ∷ ps) [] ps'' h h' = absurd h
  HasRouted-trans k stream left less (p ∷ ps) (p' ∷ ps') [] h h' = absurd h'

  pub length-HasRouted :
      (k : ℕ) (stream left : PacketStream P) (ports ports' : List (Port cb P))
      → HasRouted k stream left ports ports'
      → length ports' ≡ length ports
  unfolding HasRouted
  length-HasRouted k stream left [] [] h = refl
  length-HasRouted k stream left (p ∷ ps) (p' ∷ ps') (e, h) =
      omega (arith, length-HasRouted (k + 1) stream left ps ps' h)
  length-HasRouted k stream left [] (p' ∷ ps') h = absurd h
  length-HasRouted k stream left (p ∷ ps) [] h = absurd h
