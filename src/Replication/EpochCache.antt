-- ===== src/Replication/EpochCache.antt =====
-- relay/leaderepochcache.py: the offset at which each leadership term began.
pub mod Ends
pub mod Cuts
use event_stream_broker.Prelude.{
  ℕ, ◌-◌, Bool, true, false, Option, none, some, List, [], ◌∷◌, ◌++◌, ltb, leb, nat_beq, min,
  if◌then◌else◌, keep, length, get_last?,
}
use event_stream_broker.Failure.{Result, ok, err, invalid, missing}
use event_stream_broker.Failure.Method.{Method}

-- An entry is an epoch and the offset at which its records began.
pub record LeaderEpochCache : Type 0 where
  pub log_end : ℕ
  pub entries : List (ℕ × ℕ)

-- `self.entries and epoch <= self.entries[-1][0]`
unfoldable pub is_behind : ℕ → Option (ℕ × ℕ) → Bool
is_behind epoch none = false
is_behind epoch (some last) = leb epoch last.0

unfoldable pub assign : ℕ → ℕ → Method LeaderEpochCache (Unit {0})
unfolding is_behind
assign epoch start_offset c =
    if is_behind epoch (get_last? c.entries)
    then (err invalid, c)
    else (ok tt, record c { entries = c.entries ++ (epoch, start_offset) ∷ [] })

-- The start of the next entry, or the end of the log.
unfoldable pub next_start : List (ℕ × ℕ) → ℕ → ℕ
next_start [] log_end = log_end
next_start (e ∷ rest) log_end = e.1

-- The loop of end_offset_for.
unfoldable pub search : ℕ → List (ℕ × ℕ) → ℕ → ℕ
unfolding next_start
search epoch [] log_end = log_end
search epoch ((ep, start) ∷ rest) log_end =
    if nat_beq ep epoch
    then next_start rest log_end
    else if ltb epoch ep
    then start
    else search epoch rest log_end

-- `not self.entries or epoch < self.entries[0][0]`
unfoldable pub is_forgotten : ℕ → List (ℕ × ℕ) → Bool
is_forgotten epoch [] = true
is_forgotten epoch ((ep, start) ∷ rest) = ltb epoch ep

unfoldable pub end_offset_for : ℕ → LeaderEpochCache → Result ℕ
unfolding is_forgotten search
end_offset_for epoch c =
    if is_forgotten epoch c.entries then err missing else ok (search epoch c.entries c.log_end)

unfoldable pub truncate_from : ℕ → LeaderEpochCache → ℕ × LeaderEpochCache
truncate_from offset c =
    let kept = keep (λ (e : ℕ × ℕ). ltb e.1 offset) c.entries in
    (length c.entries - length kept, record { log_end = min c.log_end offset; entries = kept })

-- Where nothing is left, the last entry stays.
unfoldable pub or_last : List (ℕ × ℕ) → Option (ℕ × ℕ) → List (ℕ × ℕ)
or_last [] none = []
or_last [] (some last) = last ∷ []
or_last (e ∷ es) last = e ∷ es

unfoldable pub drop_below : ℕ → LeaderEpochCache → ℕ × LeaderEpochCache
unfolding or_last
drop_below log_start c =
    let kept = or_last (keep (λ (e : ℕ × ℕ). leb log_start e.1) c.entries) (get_last? c.entries) in
    (length c.entries - length kept, record c { entries = kept })
