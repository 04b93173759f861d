-- ===== src/Examples/StaticRouter/Table/ListTable.antt =====
-- An instance of the interface: a table is the list of its prefixes. The tests run the routers over it.
use mathlib.Core.List.{Memᴰ}
use mathlib.Core.List.Memᴰ
use route_rs.Common.{
  ℕ, ◌-◌, ◌/◌, ◌^◌, ◌≡◌, refl, ap, subst, List, [], ◌∷◌, Option, none, some, Bool, false, ◌==◌,
  ==_iff, ltb, ltb→lt, ltb→le, if◌then◌else◌, inl, inr, Bool-cases, arith,
}
use route_rs.Examples.StaticRouter.Table.{
  Entry, IpLookupTable, IsLookupTable, IsLongest, Covers, remove,
}

module _ (width : ℕ) {V : Type 0} where
  abbrev covers : Entry V → ℕ → Bool
  covers e a = a / 2 ^ (width - e.masklen) == e.address / 2 ^ (width - e.masklen)

  abbrev longer : Entry V → Option (Entry V) → Entry V
  longer e none = e
  longer e (some f) = if ltb e.masklen f.masklen then f else e

  abbrev best : List (Entry V) → ℕ → Option (Entry V)
  best [] a = none
  best (e ∷ entries) a =
      let later = best entries a in if covers e a then some (longer e later) else later

  abbrev pub list_table : IpLookupTable V
  list_table = record {
    Table = List (Entry V);
    new = [];
    insert = λ table address masklen value.
        let e : Entry V = record { address = address; masklen = masklen; value = value } in
        e ∷ remove width e table;
    longest_match = best;
    entries = λ table. table;
  }

  not_covered :
      (e : Entry V) (a : ℕ) (f : Entry V) → covers e a ≡ false → f ≡ e → ¬ Covers width f a
  not_covered e a f h same c =
      let here = (==_iff _ _).1 (subst (λ x. Covers width x a) same c) in cc

  -- A prefix in front that does not cover the address changes nothing.
  IsLongest-skip :
      (e : Entry V) (entries : List (Entry V)) (a : ℕ) (m : Option (Entry V))
      → covers e a ≡ false
      → IsLongest width entries a m
      → IsLongest width (e ∷ entries) a m
  IsLongest-skip e entries a none h none_covers = λ f m c. elim (Memᴰ.cases_cons m) [
    | inl same ↦ not_covered e a f h same c
    | inr m' ↦ none_covers f m' c
  ]
  IsLongest-skip e entries a (some b) h (there, c, longest) = (
    Memᴰ.tail there,
    c,
    λ f m cf. elim (Memᴰ.cases_cons m) [
      | inl same ↦ absurd (not_covered e a f h same cf)
      | inr m' ↦ longest f m' cf
    ],
  )

  -- One that covers it is compared with the longest of the rest.
  IsLongest-longer :
      (e : Entry V) (entries : List (Entry V)) (a : ℕ) (m : Option (Entry V))
      → Covers width e a
      → IsLongest width entries a m
      → IsLongest width (e ∷ entries) a (some (longer e m))
  IsLongest-longer e entries a none h none_covers = (
    Memᴰ.head refl,
    h,
    λ f m cf. elim (Memᴰ.cases_cons m) [
      | inl same ↦ omega (arith, ap (λ (x : Entry V). x.masklen) same)
      | inr m' ↦ absurd (none_covers f m' cf)
    ],
  )
  IsLongest-longer e entries a (some b) h (there, c, longest) =
      elim (Bool-cases (ltb e.masklen b.masklen)) [
        | inl more ↦ rw more (
          Memᴰ.tail there,
          c,
          λ f m cf. elim (Memᴰ.cases_cons m) [
            | inl same ↦
                omega (arith, ap (λ (x : Entry V). x.masklen) same, ltb→lt e.masklen b.masklen more)
            | inr m' ↦ longest f m' cf
          ],
        )
        | inr less ↦ rw less (
          Memᴰ.head refl,
          h,
          λ f m cf. elim (Memᴰ.cases_cons m) [
            | inl same ↦ omega (arith, ap (λ (x : Entry V). x.masklen) same)
            | inr m' ↦ omega (arith, longest f m' cf, ltb→le e.masklen b.masklen less)
          ],
        )
      ]

  best-IsLongest : (entries : List (Entry V)) (a : ℕ) → IsLongest width entries a (best entries a)
  best-IsLongest [] a = λ f m c. Memᴰ.not-nil m
  best-IsLongest (e ∷ entries) a = elim (Bool-cases (covers e a)) [
    | inl here ↦ rw here (
        IsLongest-longer e entries a (best entries a) ((==_iff _ _).0 here)
          (best-IsLongest entries a))
    | inr not_here ↦
        rw not_here
          (IsLongest-skip e entries a (best entries a) not_here (best-IsLongest entries a))
  ]

  pub list_table-IsLookupTable : IsLookupTable width list_table
  list_table-IsLookupTable = record {
    entries-new = refl;
    entries-insert = λ table address masklen value. refl;
    longest_match_lem = best-IsLongest;
  }
