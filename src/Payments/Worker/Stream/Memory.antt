-- ===== src/Payments/Worker/Stream/Memory.antt =====
-- The Redis server in memory keeps a stream.
use payment_processing.Common.{
  String, ◌≡◌, ◌≢◌, refl, ap, ◌∙◌, false, [], ◌∷◌, ◌++◌, some, take, inl, inr, Bool-cases, subst, ℕ,
}
use payment_processing.Common.Text.{◌==◌, eq_refl, eq_iff}
use payment_processing.Payments.Redis.Memory.{
  Memory, memory, seek, read_entries, set_key_entries, limit_entries,
}
use payment_processing.Payments.Worker.Stream.{Entries, last_of, IsFresh, IsNumbered, IsStream}

last_of-IsFresh :
    (id j : String) (before behind : Entries)
    → id ≢ j
    → IsFresh id (before ++ behind)
    → id ≢ last_of j before
last_of-IsFresh id j [] behind h _ = h
last_of-IsFresh id j ((k, payload) ∷ before) behind h (h', fresh) =
    last_of-IsFresh id k before behind h' fresh

differs : (s t : String) → s ≢ t → (s == t) ≡ false
differs s t h = elim (Bool-cases (s == t)) [ inl e ↦ absurd (h ((eq_iff s t).0 e)) | inr e ↦ e ]

seek-last_of :
    (start : String) (before behind : Entries)
    → IsNumbered start (before ++ behind)
    → seek start (last_of start before) (before ++ behind) ≡ behind
seek-last_of start [] behind _ = rw (eq_refl start) refl
seek-last_of start ((j, payload) ∷ before) behind ((h, fresh), numbered) =
    rw (differs start (last_of j before) (last_of-IsFresh start j before behind h fresh))
      (seek-last_of j before behind numbered)

pub seek_entries :
    (before behind : Entries) (n : ℕ) (m : Memory)
    → IsNumbered "0-0" m.entries
    → m.entries ≡ before ++ behind
    → read_entries "" (last_of "0-0" before) n m ≡ (some (take n behind), m)
seek_entries before behind n m numbered split =
    ap (λ es. (some (take n es), m))
      (ap (seek "0-0" (last_of "0-0" before)) split
        ∙ seek-last_of "0-0" before behind (subst (IsNumbered "0-0") split numbered))

abbrev pub memory_stream : (stream : String) → IsStream memory stream
memory_stream stream = record {
  entries = λ m. m.entries;
  xread_behind = λ before behind n m numbered split. seek_entries before behind n m numbered split;
  set_nx_entries = set_key_entries;
  expire_entries = limit_entries;
  publish_entries = λ c p m. refl;
}
