-- ===== src/Store/EventValue.antt =====
-- The JSON column of an event: `Scan` and `Value` of models.go. encoding/json is an argument.
use patchbin.Base.{Str, [], ◌∷◌, Result, ok, err, Error, ◌≡◌, ◌≢◌, refl}
use patchbin.Store.{EventData}

-- What the driver hands over.
pub data SqlValue : Type 0 where
  null other : SqlValue
  bytes text : Str → SqlValue

-- `json.Marshal`, and `json.Unmarshal` on top of what is there.
pub record Json : Type 0 where
  pub marshal : EventData → Result Str
  pub unmarshal : Str → EventData → Result EventData

abbrev pub scan_text : Json → Str → EventData → Result EventData
scan_text json [] e = ok e
scan_text json (c ∷ s) e = json.unmarshal (c ∷ s) e

-- `Scan`: an empty column leaves the data as it is.
unfoldable pub scan : Json → SqlValue → EventData → Result EventData
scan json SqlValue.null e = ok e
scan json SqlValue.other e = err Error.io_error
scan json (SqlValue.bytes s) e = scan_text json s e
scan json (SqlValue.text s) e = scan_text json s e

abbrev pub as_bytes : Result Str → Result SqlValue
as_bytes (ok s) = ok (SqlValue.bytes s)
as_bytes (err e) = err e

-- `Value`
abbrev pub event_value : Json → EventData → Result SqlValue
event_value json e = as_bytes (json.marshal e)

-- If JSON that was written is not empty and is read back, then so is the column.
scan-event_value :
    (json : Json) (d before : EventData) (s : Str)
    → json.marshal d ≡ ok s
    → s ≢ []
    → json.unmarshal s before ≡ ok d
    → (v : SqlValue) × (event_value json d ≡ ok v) × (scan json v before ≡ ok d)
unfolding scan
scan-event_value json d before [] written filled read = absurd (filled refl)
scan-event_value json d before (c ∷ s) written filled read =
    (SqlValue.bytes (c ∷ s), rw written refl, read)
