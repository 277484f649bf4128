-- ===== src/Normalizer/Events.antt =====
-- internal/normalizer/normalizer.go: what becomes of an event.
use nexus_gateway.Prelude.{
  String, not, ◌&&◌, Option, none, some, [], ◌∷◌, str_eq, if◌then◌else◌, ◌≡◌, ◌⊎◌,
}
use nexus_gateway.Prelude.Dict.{Dict, lookup}
use nexus_gateway.Frame.{TelemetryFrame}
use nexus_gateway.PointList.{Index, resolve}
use nexus_gateway.Normalizer.{Event, Outcome, outcome_ok, poison, miss, deviates, scalar_of}

-- The last value of a list of pairs under a key; in a Go map each key is there once.
abbrev pub last_value : String → Dict String → Option String → Option String
last_value k [] o = o
last_value k ((j, v) ∷ m) o = last_value k m (if str_eq j k then some v else o)

module _ {F : Type 0} where
  -- The attribute that a frame carries under a key.
  abbrev pub carried : Event F → String → Option String
  carried evt k =
      if str_eq "quality" k && deviates evt.quality
      then some evt.quality
      else if str_eq "unit" k && not (str_eq evt.unit "")
      then some evt.unit
      else last_value k evt.attributes none

  -- The ends of an event.
  abbrev pub Ends :
      String → Index → String → Option (Event F) → Option (TelemetryFrame F) × Outcome → Type 0
  Ends now idx gateway decoded (f, out) =
      ((f ≡ none) × (out ≡ poison) × (decoded ≡ none))
      ⊎ ((evt : Event F) × (decoded ≡ some evt)
          × (((f ≡ none) × (out ≡ miss) × (resolve idx evt.connector_id evt.local_id ≡ none))
              ⊎ ((p : String) × (resolve idx evt.connector_id evt.local_id ≡ some p)
                  × (((f ≡ none) × (out ≡ poison) × (scalar_of evt.value ≡ none))
                      ⊎ ((g : TelemetryFrame F) × (f ≡ some g)
                          × (out ≡ outcome_ok)
                          × (g.gateway_id ≡ gateway)
                          × (g.point_id ≡ p)
                          × (g.timestamp ≡ (if str_eq evt.timestamp "" then now else evt.timestamp))
                          × (g.value ≡ scalar_of evt.value)
                          × ((k : String) → lookup k g.attributes ≡ carried evt k))))))
