-- ===== src/Tests/CommandDedup.antt =====
-- connector/sdk/dedup.go: a deduplicator with room for two commands.
use nexus_gateway.Prelude.{refl, true, List, [], ◌∷◌, ◌≡◌, ◌≢◌, arith}
use nexus_gateway.Prelude.Dict.{lookup, insert, erase}
use nexus_gateway.Dispatch.{WriteReply}
use nexus_gateway.CommandDedup.{
  Op, reserves, completes, new_dedup, try_reserve, reserve_over, reserve, evict, run, perform,
  complete, proceed,
}
use nexus_gateway.CommandDedup.Bounded.{IsValid, run-IsValid}
use nexus_gateway.CommandDedup.Once.{try_reserve-run}

abbrev reply : WriteReply
reply = record { success = true; response = "" }

abbrev earlier : List Op
earlier = reserves "a" ∷ (completes "a" reply ∷ (reserves "b" ∷ []))

abbrev later : List Op
later = reserves "d" ∷ (completes "d" reply ∷ [])

run-IsValid_example : IsValid (run (reserves "e" ∷ later) (new_dedup 2))
run-IsValid_example = run-IsValid 2 (reserves "e" ∷ later)

-- The third command evicts the first.
third_proceeds : (try_reserve "e" (run earlier (new_dedup 2))).1 ≡ proceed
unfolding try_reserve reserve_over reserve evict run perform complete lookup insert erase
third_proceeds = refl

try_reserve-run_example :
    (try_reserve "e" (run later (try_reserve "e" (run earlier (new_dedup 2))).0)).1 ≢ proceed
try_reserve-run_example = try_reserve-run 2 earlier later "e" third_proceeds (omega arith)
