-- ===== src/Examples/StaticRouter/Table.antt =====
-- What the subnet routers use of the package treebitmap: a table of prefixes. The package is not part of
-- the repository, so the routers take this interface as a parameter.
pub mod ListTable
use mathlib.Core.List.{Memᴰ}
use route_rs.Common.{
  ℕ, ◌-◌, ◌/◌, ◌^◌, ◌≤◌, ◌≡◌, List, [], ◌∷◌, Option, none, some, Bool, ◌&&◌, ◌==◌, if◌then◌else◌,
}

-- a prefix of `masklen` bits, by an address as a number, and its value
pub record Entry (V : Type 0) : Type 0 where
  pub address : ℕ
  pub masklen : ℕ
  pub value : V

-- `IpLookupTable` for addresses of one width
pub record IpLookupTable (V : Type 0) : Type 1 where
  pub Table : Type 0
  pub new : Table
  pub insert : Table → ℕ → ℕ → V → Table
  pub longest_match : Table → ℕ → Option (Entry V)
  -- the prefixes of a table, the one inserted last first
  pub entries : Table → List (Entry V)

module _ (width : ℕ) {V : Type 0} where
  -- The address begins with the prefix.
  abbrev pub Covers : Entry V → ℕ → Type 0
  Covers e a = a / 2 ^ (width - e.masklen) ≡ e.address / 2 ^ (width - e.masklen)

  abbrev pub same_prefix : Entry V → Entry V → Bool
  same_prefix e f =
      e.masklen == f.masklen
      && e.address / 2 ^ (width - e.masklen) == f.address / 2 ^ (width - e.masklen)

  abbrev pub remove : Entry V → List (Entry V) → List (Entry V)
  remove e [] = []
  remove e (f ∷ entries) = let rest = remove e entries in if same_prefix e f then rest else f ∷ rest

  -- The longest prefix of the entries that covers the address, where some does.
  abbrev pub IsLongest : List (Entry V) → ℕ → Option (Entry V) → Type 0
  IsLongest entries a none = (e : Entry V) → Memᴰ e entries → ¬ Covers e a
  IsLongest entries a (some e) =
      Memᴰ e entries
      × Covers e a
      × ((f : Entry V) → Memᴰ f entries → Covers f a → f.masklen ≤ e.masklen)

  -- The documented behaviour: an insert puts its value in the place of one of the same prefix.
  pub record IsLookupTable (t : IpLookupTable V) : Type 1 where
    pub entries-new : t.entries t.new ≡ []
    pub entries-insert :
        (table : t.Table) (address masklen : ℕ) (value : V)
        → t.entries (t.insert table address masklen value)
          ≡ record { address = address; masklen = masklen; value = value }
            ∷ remove
                (record { address = address; masklen = masklen; value = value })
                (t.entries table)
    pub longest_match_lem :
        (table : t.Table) (a : ℕ) → IsLongest (t.entries table) a (t.longest_match table a)
