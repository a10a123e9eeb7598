-- ===== src/Externals.antt =====
-- What the engine takes from packages and from generated code: SHA-256, hexadecimal text, the JSON
-- text of a string, the validator of JSON schemas, and the derived serialisers of two contracts.
-- Everything that calls one of them takes this record as a parameter.
use graphrun.Prelude.{ℕ, zero, suc, ◌+◌, ◌*◌, ◌/◌, ◌%◌, String, Bool, List, [], ◌∷◌, ◌++◌}
use Prim.Native.Char.{code}
use graphrun.Error.{Result}
use graphrun.Value.{Json}
use graphrun.Catalog.{ActivityContract, ReconcilerContract}

pub record Externals : Type 0 where
  pub sha256 : List ℕ → List ℕ
  pub hex : List ℕ → String
  pub json_text : String → List ℕ
  -- A schema that is not valid panics.
  pub is_valid : Json → Json → Result Bool
  pub activity_json : ActivityContract → Json
  pub bound_json : ActivityContract → ReconcilerContract → Json

-- The bytes of an ASCII text.
abbrev pub ascii : String → List ℕ
ascii String.[] = []
ascii (String.◌∷◌ c s) = code c ∷ ascii s

-- `n` in `k` bytes, the lowest first, and the highest first.
unfoldable pub le_bytes : ℕ → ℕ → List ℕ
le_bytes zero n = []
le_bytes (suc k) n = n % 256 ∷ le_bytes k (n / 256)

unfoldable pub be_bytes : ℕ → ℕ → List ℕ
be_bytes zero n = []
be_bytes (suc k) n = be_bytes k (n / 256) ++ n % 256 ∷ []

-- The number whose bytes, the highest first, are the first `k` of a list.
unfoldable pub from_be : ℕ → ℕ → List ℕ → ℕ
from_be acc zero bs = acc
from_be acc (suc k) [] = acc
from_be acc (suc k) (b ∷ bs) = from_be (acc * 256 + b) k bs

-- `IdGen` of graphrun/src/domain.rs: the n-th id that a command makes.
pub record IdGen : Type 0 where
  pub command : ℕ
  pub n : ℕ

module _ (ext : Externals) where
  -- The first sixteen bytes of a digest.
  unfoldable pub digest16 : List ℕ → ℕ
  unfolding from_be
  digest16 bytes = from_be 0 16 (ext.sha256 bytes)

  -- `IdGen::next_bytes`, which `scope()`, `activation()` and `wait()` return under their brands.
  unfoldable pub next_id : IdGen → ℕ × IdGen
  unfolding digest16 be_bytes le_bytes
  next_id g = (digest16 (be_bytes 16 g.command ++ le_bytes 4 g.n), record g { n = g.n + 1 })

  -- `to_hex()` of an id.
  unfoldable pub to_hex : ℕ → String
  unfolding be_bytes
  to_hex id = ext.hex (be_bytes 16 id)
