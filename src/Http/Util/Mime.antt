-- ===== src/Http/Util/Mime.antt =====
-- ExtMime and StatuDesc: every entry of a table is found.
use flux_a_high_performance.Prelude.{
  ℕ, zero, suc, ◌≡◌, refl, ap, ◌∙◌, Bool, true, false, List, [], ◌∷◌, ◌++◌, some, drop-append_left,
  find_last-append, eq_bytes, Avoids, arith, find_last-none, ◌&&◌, not, ◌==◌, sym, eq_bytes→eq,
  get_elem?,
}
use flux_a_high_performance.Http.Tables.{mime_msg}
use flux_a_high_performance.Http.Util.{ext_mime, lookup_text, value_or, octet_stream}

ext_mime-suffix :
    (stem suffix : List ℕ)
    → Avoids b'.' suffix
    → ext_mime (stem ++ b'.' ∷ suffix)
      ≡ value_or (lookup_text (b'.' ∷ suffix) mime_msg) octet_stream
unfolding ext_mime
ext_mime-suffix stem suffix a =
    rw (find_last-append b'.' stem suffix a, ext_mime, drop-append_left stem (b'.' ∷ suffix))

lacks : ℕ → List ℕ → Bool
lacks c [] = true
lacks c (x ∷ xs) = not (x == c) && lacks c xs

lacks-Avoids : (c : ℕ) (xs : List ℕ) → lacks c xs ≡ true → Avoids c xs
unfolding lacks
lacks-Avoids c [] h = tt
lacks-Avoids c (x ∷ xs) h = (λ e. ground arith, lacks-Avoids c xs (ground arith))

module _ (table : List (List ℕ × List ℕ)) where
  -- An entry that ExtMime finds: a dot, no dot behind it, and no earlier entry for it.
  entry_ok : List ℕ → List ℕ → Bool
  entry_ok [] v = false
  entry_ok (x ∷ suffix) v =
      x == b'.'
      && (lacks b'.' suffix && eq_bytes (value_or (lookup_text (x ∷ suffix) table) octet_stream) v)

  entries_ok : List (List ℕ × List ℕ) → Bool
  entries_ok [] = true
  entries_ok ((k, v) ∷ es) = entry_ok k v && entries_ok es

  abbrev Found : List ℕ → List ℕ → Type 0
  Found k v =
      (suffix : List ℕ) × (k ≡ b'.' ∷ suffix)
      × Avoids b'.' suffix
      × (value_or (lookup_text (b'.' ∷ suffix) table) octet_stream ≡ v)

  entry_ok-Found : (k v : List ℕ) → entry_ok k v ≡ true → Found k v
  unfolding entry_ok
  entry_ok-Found [] v h = cc
  entry_ok-Found (x ∷ suffix) v h =
      let e : x ≡ b'.' = ground arith in
      let found : eq_bytes (value_or (lookup_text (x ∷ suffix) table) octet_stream) v ≡ true =
        ground arith in
      (
        suffix,
        ap (λ y. y ∷ suffix) e,
        lacks-Avoids b'.' suffix (ground arith),
        ap (λ y. value_or (lookup_text (y ∷ suffix) table) octet_stream) (sym e)
            ∙ eq_bytes→eq _ v found,
      )

  entries_ok-Found :
      (es : List (List ℕ × List ℕ)) (i : ℕ) (k v : List ℕ)
      → entries_ok es ≡ true
      → get_elem? es i ≡ some (k, v)
      → Found k v
  unfolding entries_ok
  entries_ok-Found [] i k v h e = cc
  entries_ok-Found ((j, w) ∷ es) zero k v h e =
      let (same_key, same_value) : (j ≡ k) × (w ≡ v) = ground arith in
      entry_ok-Found k v (ground arith)
  entries_ok-Found ((j, w) ∷ es) (suc i) k v h e = entries_ok-Found es i k v (ground arith) e

mime_msg-ok : entries_ok mime_msg mime_msg ≡ true
unfolding entries_ok entry_ok lacks lookup_text eq_bytes
mime_msg-ok = refl

-- A file name gets the type of every suffix in the table, whatever stands before the suffix.
ext_mime_lem :
    (stem : List ℕ) (i : ℕ) (suffix mime : List ℕ)
    → get_elem? mime_msg i ≡ some (suffix, mime)
    → ext_mime (stem ++ suffix) ≡ mime
ext_mime_lem stem i suffix mime h =
    let (rest, e, a, found) = entries_ok-Found mime_msg mime_msg i suffix mime mime_msg-ok h in
    rw e (ext_mime-suffix stem rest a ∙ found)

-- A name without a dot is a plain byte stream.
pub ext_mime-no_dot : (name : List ℕ) → Avoids b'.' name → ext_mime name ≡ octet_stream
unfolding ext_mime
ext_mime-no_dot name a = rw (find_last-none b'.' name a, ext_mime)
