-- ===== src/Sources/Teardown.antt =====
-- What a deletion leaves: crates/api/src/routes/sources.rs, `delete`, over the stops of srt.rs, media_player.rs,
-- webrtc_ingest.rs and browser_source.rs.
use shed.Prelude.{
  ◌==◌, if◌then◌else◌, Bool-cases, is_some, keep_if, ℕ, ◌≡◌, refl, inl, inr, true, false, not,
  Option, none, some, List, [], ◌∷◌, ◌++◌, arith, option_list,
}
use shed.Prelude.Maps.{IdMap, lookup, insert, remove, lookup-remove, lookup-insert}
use shed.Types.{disconnected}
use shed.Types.MuxshedError.{MuxshedError}
use shed.WebRtc.{SourceRow}
use shed.Sources.{has_row, teardown, delete}
use shed.Sources.State.{AppState}

-- A map after an entry is removed twice, or four times.
module _ {ℓ} {V : Type ℓ} (m : IdMap V) (id j : ℕ) where
  lookup-remove_self : lookup (remove m id) id ≡ none
  lookup-remove_self = ground (arith, lookup-remove m id id)

  remove_twice : lookup (remove (remove m id) id) j ≡ (if id == j then none else lookup m j)
  remove_twice = ground (arith, lookup-remove m id j, lookup-remove (remove m id) id j)

  remove_four :
      lookup (remove (remove (remove (remove m id) id) id) id) j
      ≡ (if id == j then none else lookup m j)
  remove_four =
      let twice = remove (remove m id) id in
      ground (arith, remove_twice, lookup-remove twice id j, lookup-remove (remove twice id) id j)

has_row-keep_if :
    (id j : ℕ) (rows : List SourceRow)
    → has_row j (keep_if (λ r. not (r.id == id)) rows) ≡ (if id == j then false else has_row j rows)
has_row-keep_if id j [] = ground arith
has_row-keep_if id j (r ∷ rows) = ground (arith, has_row-keep_if id j rows)

-- Nothing feeds or shows the source, other sources are as they were, and every process that fed it is
-- killed.
pub record IsGone (id : ℕ) (s s' : AppState) : Type 0 where
  pub rows : (j : ℕ) → has_row j s'.sources ≡ (if id == j then false else has_row j s.sources)
  pub listeners :
      (j : ℕ)
      → lookup s'.browsers.media.ingest.srt_listeners j
        ≡ (if id == j then none else lookup s.browsers.media.ingest.srt_listeners j)
  pub players :
      (j : ℕ)
      → lookup s'.browsers.media.media_players j
        ≡ (if id == j then none else lookup s.browsers.media.media_players j)
  pub normalizers :
      (j : ℕ)
      → lookup s'.browsers.media.source_normalizers j
        ≡ (if id == j then none else lookup s.browsers.media.source_normalizers j)
  pub browsers :
      (j : ℕ)
      → lookup s'.browsers.browser_sources j
        ≡ (if id == j then none else lookup s.browsers.browser_sources j)
  pub peers : (j : ℕ) → lookup s'.guest_peers j ≡ (if id == j then none else lookup s.guest_peers j)
  pub relays :
      (j : ℕ)
      → lookup s'.browsers.media.ingest.media_relays j
        ≡ (if id == j then none else lookup s.browsers.media.ingest.media_relays j)
  pub headers :
      (j : ℕ)
      → lookup s'.browsers.media.ingest.sequence_headers j
        ≡ (if id == j then none else lookup s.browsers.media.ingest.sequence_headers j)
  pub states :
      (j : ℕ)
      → lookup s'.browsers.media.ingest.source_states j
        ≡ (if id == j then some disconnected else lookup s.browsers.media.ingest.source_states j)
  pub killed :
      s'.browsers.media.killed
      ≡ option_list (lookup s.browsers.browser_sources id)
        ++ (option_list (lookup s.browsers.media.source_normalizers id)
            ++ (option_list (lookup s.browsers.media.media_players id)
                ++ (option_list (lookup s.browsers.media.ingest.srt_listeners id)
                    ++ s.browsers.media.killed)))

teardown-IsGone :
    (id : ℕ) (s : AppState)
    → IsGone id s (teardown id (record s { sources = keep_if (λ r. not (r.id == id)) s.sources }))
unfolding teardown
teardown-IsGone id s = record {
  rows = λ j. ground (
    arith,
    has_row-keep_if id j s.sources,
    has_row-keep_if id j (keep_if (λ r. not (r.id == id)) s.sources),
  );
  listeners = lookup-remove s.browsers.media.ingest.srt_listeners id;
  players = lookup-remove s.browsers.media.media_players id;
  normalizers = remove_twice s.browsers.media.source_normalizers id;
  browsers = lookup-remove s.browsers.browser_sources id;
  peers = lookup-remove s.guest_peers id;
  relays = remove_four s.browsers.media.ingest.media_relays id;
  headers = remove_four s.browsers.media.ingest.sequence_headers id;
  states = λ j. ground (
    arith,
    lookup-insert s.browsers.media.ingest.source_states id disconnected j,
    lookup-insert (insert s.browsers.media.ingest.source_states id disconnected) id disconnected j,
  );
  killed = rw (lookup-remove_self s.browsers.media.source_normalizers id) refl;
}

-- What a deletion leaves, by its result.
abbrev pub Deleted : ℕ → AppState → Option MuxshedError × AppState → Type 0
Deleted id s (none, s') = (has_row id s.sources ≡ true) × IsGone id s s'
Deleted id s (some e, s') = (has_row id s.sources ≡ false) × (s' ≡ s)

-- A deletion of a source that has a row leaves nothing of it, whatever its kind: no row, no process, no peer, no relay and no
-- headers, its processes are killed, and every other source keeps what it has. Without a row it is refused and
-- nothing changes.
pub delete-Deleted : (id : ℕ) (s : AppState) → Deleted id s (delete id s)
unfolding delete
delete-Deleted id s = elim (Bool-cases (has_row id s.sources)) [
  | inl there ↦ rw (delete, there) (there, teardown-IsGone id s)
  | inr absent ↦ rw (delete, absent) (absent, refl)
]

pub delete-IsGone :
    (id : ℕ) (s : AppState) → has_row id s.sources ≡ true → IsGone id s (delete id s).1
unfolding delete
delete-IsGone id s there = rw there (teardown-IsGone id s)

pub delete_refused :
    (id : ℕ) (s : AppState) → has_row id s.sources ≡ false → is_some (delete id s).0 ≡ true
unfolding delete
delete_refused id s absent = rw absent refl
