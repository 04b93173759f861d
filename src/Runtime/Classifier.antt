-- ===== src/Runtime/Classifier.antt =====
-- The classifiers of route-rs-runtime/src/classifier (even.rs and fizz_buzz.rs), and the classify links
-- that they build.
pub mod Numbers
use route_rs.Common.{ℕ, suc, ◌%◌, Bool, true, false, ◌&&◌, ◌==◌, if◌then◌else◌, Outcome, ok, ◌>>=◌}
use route_rs.Runtime.Crossbeam.{Crossbeam}
use route_rs.Runtime.Link.{PacketStream}
use route_rs.Runtime.Link.Classify
use route_rs.Runtime.Link.Classify.{ClassifyIngressor}

-- an `i32` by its value: `pos n` is n, and `negsuc n` is -(n + 1)
pub data ℤ : Type 0 where
  pos negsuc : ℕ → ℤ

-- `z % m == 0`: the remainder of `i32` has the sign of `z`
abbrev pub divides : ℕ → ℤ → Bool
divides m (pos n) = n % m == 0
divides m (negsuc n) = suc n % m == 0

-- `Even`
unfoldable pub classify_even : ℤ → Bool
classify_even packet = divides 2 packet

pub data FizzBuzzVariant : Type 0 where
  fizz_buzz fizz buzz neither : FizzBuzzVariant

-- `FizzBuzz`
unfoldable pub classify_fizz_buzz : ℤ → FizzBuzzVariant
classify_fizz_buzz packet =
    if divides 3 packet && divides 5 packet
    then fizz_buzz
    else if divides 3 packet
    then fizz
    else if divides 5 packet
    then buzz
    else neither

-- the dispatchers of the links
abbrev pub even_port : Bool → ℕ
even_port is_even = if is_even then 0 else 1

abbrev pub fizz_buzz_port : FizzBuzzVariant → ℕ
fizz_buzz_port fizz_buzz = 0
fizz_buzz_port fizz = 1
fizz_buzz_port buzz = 2
fizz_buzz_port neither = 3

module _ (cb : Crossbeam) where
  unfoldable pub even_link : PacketStream ℤ → Outcome (ClassifyIngressor cb ℤ Bool)
  unfolding Classify.ingressor Classify.num_egressors Classify.build_link
  even_link stream = do
    link ← Classify.ingressor cb ℤ Bool (Classify.new cb ℤ Bool) stream
    counted ← Classify.num_egressors cb ℤ Bool link 2
    let classified = Classify.classifier cb ℤ Bool counted classify_even
    Classify.build_link cb ℤ Bool (Classify.dispatcher cb ℤ Bool classified even_port)

  unfoldable pub fizz_buzz_link : PacketStream ℤ → Outcome (ClassifyIngressor cb ℤ FizzBuzzVariant)
  unfolding Classify.ingressor Classify.num_egressors Classify.build_link
  fizz_buzz_link stream = do
    link ← Classify.ingressor cb ℤ FizzBuzzVariant (Classify.new cb ℤ FizzBuzzVariant) stream
    counted ← Classify.num_egressors cb ℤ FizzBuzzVariant link 4
    let classified = Classify.classifier cb ℤ FizzBuzzVariant counted classify_fizz_buzz
    Classify.build_link cb ℤ FizzBuzzVariant
        (Classify.dispatcher cb ℤ FizzBuzzVariant classified fizz_buzz_port)
