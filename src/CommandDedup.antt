-- ===== src/CommandDedup.antt =====
-- connector/sdk/dedup.go: `CommandDedup`, which lets a connector execute a command once.
pub mod Bounded
pub mod Once
use nexus_gateway.Prelude.{
  ℕ, suc, ◌≡◌, String, Bool, true, false, Option, none, some, List, [], ◌∷◌, ◌++◌, length, leb,
  if◌then◌else◌,
}
use nexus_gateway.Prelude.Dict.{Dict, lookup, insert, erase}
use nexus_gateway.Dispatch.{WriteReply}

-- CommandDedup. An entry without a reply is a command in flight.
pub record Dedup : Type 0 where
  pub entries : Dict (Option WriteReply)
  pub keys : List String
  pub cap : ℕ

-- What TryReserve answers; without room for one key it indexes an empty slice.
pub data Reserve : Type 0 where
  proceed in_flight panics : Reserve
  cached : WriteReply → Reserve

-- NewCommandDedup
abbrev pub new_dedup : ℕ → Dedup
new_dedup cap = record { entries = []; keys = []; cap = cap }

-- TryReserve, the last lines
unfoldable pub reserve : String → Dedup → Dedup × Reserve
reserve id d =
    (record d { entries = insert id none d.entries; keys = d.keys ++ (id ∷ []) }, proceed)

-- TryReserve, where the oldest key is evicted
unfoldable pub evict : String → List String → Dedup → Dedup × Reserve
unfolding reserve
evict id [] d = (d, panics)
evict id (oldest ∷ keys) d = reserve id (record d { keys = keys; entries = erase oldest d.entries })

-- TryReserve, on the entry
unfoldable pub reserve_over : String → Option (Option WriteReply) → Dedup → Dedup × Reserve
unfolding evict reserve
reserve_over id (some none) d = (d, in_flight)
reserve_over id (some (some reply)) d = (d, cached reply)
reserve_over id none d = if leb d.cap (length d.keys) then evict id d.keys d else reserve id d

-- TryReserve
unfoldable pub try_reserve : String → Dedup → Dedup × Reserve
unfolding reserve_over
try_reserve id d = reserve_over id (lookup id d.entries) d

-- Complete
unfoldable pub complete : String → WriteReply → Dedup → Dedup
complete id reply d = record d { entries = insert id (some reply) d.entries }

-- What a connector asks of it.
pub data Op : Type 0 where
  reserves : String → Op
  completes : String → WriteReply → Op

unfoldable pub perform : Op → Dedup → Dedup
unfolding try_reserve complete
perform (reserves id) d = (try_reserve id d).0
perform (completes id reply) d = complete id reply d

unfoldable pub run : List Op → Dedup → Dedup
unfolding perform
run [] d = d
run (op ∷ ops) d = run ops (perform op d)

-- How many commands are tried.
abbrev pub tries : List Op → ℕ
tries [] = 0
tries (reserves id ∷ ops) = suc (tries ops)
tries (completes id reply ∷ ops) = tries ops
