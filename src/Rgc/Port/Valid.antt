-- ===== src/Rgc/Port/Valid.antt =====
-- The order of the cursors of a port, and the text that its buffer holds.
use bigloo.Prelude.{ℕ, ◌≤◌, List, ◌++◌, take, drop}
use bigloo.Memory.{len}
use bigloo.Rgc.Port.{Port, Read}
use bigloo.Rgc.Port.Stream.{Stream}

module _ {S : Type 0} where
  pub record IsValid (p : Port S) : Type 0 where
    pub started : p.matchstart ≤ p.matchstop
    pub stopped : p.matchstop ≤ p.bufpos
    pub ahead : p.matchstart ≤ p.forward
    pub behind : p.forward ≤ p.bufpos
    pub within : p.bufpos ≤ len p.buf

  -- The bytes from the start of the match on.
  abbrev pub window : Port S → List ℕ
  window p = drop p.matchstart (take p.bufpos p.buf.chars)

  -- The bytes behind the match.
  abbrev pub available : Port S → List ℕ
  available p = drop p.matchstop (take p.bufpos p.buf.chars)

module _ {S : Type 0} {read : S → ℕ → Read S} (stream : Stream read) where
  -- All the text that is to come, from the end of the match on.
  abbrev pub pending : Port S → List ℕ
  pending p = available p ++ stream.rest p.source
