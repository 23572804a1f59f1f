-- ===== src/Monitoring/Logger/Entries.antt =====
-- Logger.ts: what reaches the console and the file.
use mathlib.Core.List.{append-nil, append_assoc}
use queueway.Base.{
  ap, inr, ◌∙◌, inl, Bool-cases, arith, sym, ◌≡◌, refl, Bool, true, false, List, [], ◌∷◌, ◌++◌,
  keep,
}
use queueway.Config.{should_log}
use queueway.Monitoring.Logger.{write_file, Logger, Entry, Sinks, write, stream_error}

-- An entry, or an error of the file's stream.
pub data LogEvent : Type 0 where
  logs : Entry → LogEvent
  breaks : LogEvent

abbrev pub both_take : Sinks
both_take = record { file_takes = true; console_takes = true }

unfoldable pub follow : List LogEvent → Logger → Logger
follow [] l = l
follow (logs e ∷ es) l = follow es (write both_take e l)
follow (breaks ∷ es) l = follow es (stream_error l)

abbrev pub entries : List LogEvent → List Entry
entries [] = []
entries (logs e ∷ es) = e ∷ entries es
entries (breaks ∷ es) = entries es

-- What comes before the first error of the stream.
abbrev pub unbroken : List LogEvent → List Entry
unbroken [] = []
unbroken (logs e ∷ es) = e ∷ unbroken es
unbroken (breaks ∷ es) = []

abbrev passes : Logger → Entry → Bool
passes l e = should_log l.level e.level

kept_passes :
    (e : Entry) (l : Logger)
    → l.to_console ≡ true
    → passes l e ≡ true
    → write both_take e l
      ≡ record l { file = (write_file true e l).file; console = l.console ++ e ∷ [] }
unfolding write
kept_passes e l c p = ground (arith, c, p)

kept_stops : (e : Entry) (l : Logger) → passes l e ≡ false → write both_take e l ≡ l
unfolding write
kept_stops e l p = ground (arith, p)

-- Whatever happens to the file of a logger that has a console, the console shows all entries of its
-- level or above, in their order, and no other.
pub follow_console :
    (es : List LogEvent) (l : Logger)
    → l.to_console ≡ true
    → (follow es l).console ≡ l.console ++ keep (passes l) (entries es)
unfolding follow stream_error
follow_console [] l c = sym (append-nil l.console)
follow_console (logs e ∷ es) l c = elim (Bool-cases (passes l e)) [
  | inl p ↦
      ap (λ k. (follow es k).console) (kept_passes e l c p)
      ∙ follow_console es
          (record l { file = (write_file true e l).file; console = l.console ++ e ∷ [] }) c
      ∙ rw p (append_assoc l.console (e ∷ []) (keep (passes l) (entries es)))
  | inr p ↦ ap (λ k. (follow es k).console) (kept_stops e l p) ∙ follow_console es l c ∙ rw p refl
]
follow_console (breaks ∷ es) l c = follow_console es (record l { stream = false }) c

kept_closed :
    (e : Entry) (l : Logger)
    → l.stream ≡ false
    → ((write both_take e l).stream ≡ false) × ((write both_take e l).file ≡ l.file)
unfolding write
kept_closed e l s = ground (arith, s)

closed_file : (es : List LogEvent) (l : Logger) → l.stream ≡ false → (follow es l).file ≡ l.file
unfolding follow stream_error write
closed_file [] l s = refl
closed_file (logs e ∷ es) l s =
    let (o, f) = kept_closed e l s in closed_file es (write both_take e l) o ∙ f
closed_file (breaks ∷ es) l s = closed_file es (record l { stream = false }) refl

-- The file of a logger that has opened it gets all entries of its level or above that come before the
-- first error of its stream, in their order, and no other.
follow_file :
    (es : List LogEvent) (l : Logger)
    → l.to_console ≡ true
    → l.stream ≡ true
    → (follow es l).file ≡ l.file ++ keep (passes l) (unbroken es)
unfolding follow stream_error
follow_file [] l c s = sym (append-nil l.file)
follow_file (logs e ∷ es) l c s = elim (Bool-cases (passes l e)) [
  | inl p ↦
      ap (λ k. (follow es k).file) (kept_passes e l c p)
      ∙ follow_file es
          (record l { file = (write_file true e l).file; console = l.console ++ e ∷ [] }) c s
      ∙ rw (p, s) (append_assoc l.file (e ∷ []) (keep (passes l) (unbroken es)))
  | inr p ↦ ap (λ k. (follow es k).file) (kept_stops e l p) ∙ follow_file es l c s ∙ rw p refl
]
follow_file (breaks ∷ es) l c s =
    closed_file es (record l { stream = false }) refl ∙ sym (append-nil l.file)
