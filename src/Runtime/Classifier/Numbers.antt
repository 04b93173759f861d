-- ===== src/Runtime/Classifier/Numbers.antt =====
-- Where the links of the number classifiers send a number.
use route_rs.Common.{
  ℕ, suc, ◌%◌, ◌<◌, ◌≡◌, refl, Bool, true, false, ◌&&◌, ◌==◌, if◌then◌else◌, ok, arith, length,
}
use route_rs.Runtime.Classifier.{
  ℤ, pos, negsuc, classify_even, classify_fizz_buzz, fizz_buzz, fizz, buzz, neither, even_port,
  fizz_buzz_port, even_link,
}
use route_rs.Runtime.Crossbeam.{Crossbeam, IsCrossbeam}
use route_rs.Runtime.Link.{PacketStream}
use route_rs.Runtime.Link.Classify
use route_rs.Runtime.Link.Classify.{ClassifyIngressor, poll}
use route_rs.Runtime.Link.Classify.Dispatch.{IsDispatched, for_port, classify_dispatches}
use route_rs.Runtime.Link.Ports.{new_ports}
use route_rs.Runtime.Link.Ports.Routing.{AreOpen-new_ports}
use route_rs.Runtime.TaskPark.{Waker, Memory}

-- the distance from 0
abbrev pub abs : ℤ → ℕ
abs (pos n) = n
abs (negsuc n) = suc n

-- the port of a number, by its remainder by 15
abbrev pub port_of_remainder : ℕ → ℕ
port_of_remainder r = if r == 0 then 0 else if r % 3 == 0 then 1 else if r % 5 == 0 then 2 else 3

by_remainder :
    (n : ℕ)
    → fizz_buzz_port (
        if n % 3 == 0 && n % 5 == 0
        then fizz_buzz
        else if n % 3 == 0
        then fizz
        else if n % 5 == 0
        then buzz
        else neither)
      ≡ port_of_remainder (n % 15)
by_remainder n = ground arith

pub fizz_buzz_port_lem :
    (z : ℤ) → fizz_buzz_port (classify_fizz_buzz z) ≡ port_of_remainder (abs z % 15)
unfolding classify_fizz_buzz
fizz_buzz_port_lem (pos n) = by_remainder n
fizz_buzz_port_lem (negsuc n) = by_remainder (suc n)

even_port-lt : (b : Bool) → even_port b < 2
even_port-lt true = omega arith
even_port-lt false = omega arith

even_by_remainder : (n : ℕ) → even_port (n % 2 == 0) ≡ n % 2
even_by_remainder n = ground arith

even_port_lem : (z : ℤ) → even_port (classify_even z) ≡ abs z % 2
unfolding classify_even
even_port_lem (pos n) = even_by_remainder n
even_port_lem (negsuc n) = even_by_remainder (suc n)

module _ (cb : Crossbeam) (law : IsCrossbeam cb) (stream : PacketStream ℤ) where
  two_ports : length (new_ports cb ℤ 10 2) ≡ 2
  unfolding new_ports
  two_ports = refl

  -- The link of `Even` sends the even numbers to port 0 and the odd ones to port 1.
  pub even_link_dispatches :
      (task : Waker) (mem : Memory cb)
      → (link : ClassifyIngressor cb ℤ Bool) × (even_link cb stream ≡ ok link)
        × IsDispatched cb law ℤ Bool classify_even even_port 10 stream link.ports
            (poll cb ℤ Bool task link mem)
        × ((z : ℤ) → even_port (classify_even z) ≡ abs z % 2)
  unfolding even_link Classify.ingressor Classify.num_egressors Classify.build_link
  even_link_dispatches task mem =
      let link : ClassifyIngressor cb ℤ Bool = record {
        input_stream = stream;
        dispatch = even_port;
        classify = classify_even;
        ports = new_ports cb ℤ 10 2;
      } in
      (
        link,
        refl,
        classify_dispatches cb law ℤ Bool 10 task link mem
            (AreOpen-new_ports cb law ℤ (for_port classify_even even_port) 10 2)
            (λ v. omega (arith, even_port-lt v, two_ports)),
        even_port_lem,
      )
