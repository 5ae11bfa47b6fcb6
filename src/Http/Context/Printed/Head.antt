-- ===== src/Http/Context/Printed/Head.antt =====
-- RecvHttpHead on header lines that a client has written.
use flux_a_high_performance.Prelude.{
  ℕ, zero, suc, ◌+◌, ◌-◌, ◌≤◌, ◌<◌, ◌≡◌, refl, sym, ap, ◌∙◌, Bool, true, false, List, [], ◌∷◌, ◌++◌,
  some, length, take, drop, take-append_left, drop-append_left, drop-drop, length-append,
  append_assoc, ltb, ◌==◌, codes, eq_bytes, eq_bytes→eq, find, starts_with, Avoids, Avoids-append,
  All, ok, arith, Bool-cases, inl, inr,
}
use flux_a_high_performance.Buffer.{Buffer, read_able_size}
use flux_a_high_performance.Buffer.Inv.{IsValid, contents, length-contents}
use flux_a_high_performance.Http.Request.{HttpRequest, set_header}
use flux_a_high_performance.Http.Request.Headers.{Table}
use flux_a_high_performance.Http.Context.{
  HttpContext, recv_head, recv_body, success, drop_last, parse_http_head, is_blank_line,
  head_parsed, head_received, head_loop, recv_http_head,
}
use flux_a_high_performance.Http.Line.Printed.{ends_with-append}
use flux_a_high_performance.Http.Context.Printed.{line_then, next_line}

find-append :
    (key value : List ℕ)
    → Avoids b':' key
    → find (codes ": ") (key ++ b':' ∷ b' ' ∷ value) ≡ some (length key)
unfolding find starts_with
find-append [] value h = refl
find-append (x ∷ key) value h = ground (arith, find-append key value h.1, h.0)

drop_last-append : (c : ℕ) (xs : List ℕ) → drop_last c (xs ++ c ∷ []) ≡ xs
unfolding drop_last
drop_last-append c xs =
    let n : length (xs ++ c ∷ []) - 1 ≡ length xs = omega (arith, length-append xs (c ∷ [])) in
    rw (ends_with-append xs (c ∷ []), n) (take-append_left xs (c ∷ []))

-- A header line without its line break.
unfoldable pub header_line : List ℕ → List ℕ → List ℕ
header_line key value = key ++ b':' ∷ b' ' ∷ value

pub with_header : HttpContext → List ℕ → List ℕ → HttpContext
with_header c key value = record c { request = set_header c.request key value }

find-header_line :
    (key value : List ℕ)
    → Avoids b':' key
    → find (codes ": ") (header_line key value) ≡ some (length key)
unfolding header_line
find-header_line key value h = find-append key value h

take-header_line : (key value : List ℕ) → take (length key) (header_line key value) ≡ key
unfolding header_line
take-header_line key value = take-append_left key (b':' ∷ b' ' ∷ value)

drop-header_line : (key value : List ℕ) → drop (length key + 2) (header_line key value) ≡ value
unfolding header_line
drop-header_line key value =
    sym (drop-drop 2 (length key) (length key + 2) (header_line key value) (omega arith))
    ∙ ap (drop 2) (drop-append_left key (b':' ∷ b' ' ∷ value))

parse_http_head-header_line :
    (c : HttpContext) (key value : List ℕ)
    → Avoids b':' key
    → parse_http_head c (header_line key value ++ b'\r' ∷ b'\n' ∷ [])
      ≡ (true, with_header c key value)
unfolding parse_http_head with_header
parse_http_head-header_line c key value h =
    let line : List ℕ = header_line key value in
    let stripped : List ℕ = drop_last b'\r' (drop_last b'\n' (line ++ b'\r' ∷ b'\n' ∷ [])) in
    let put : List ℕ → Bool × HttpContext =
      λ l. (true, with_header c (take (length key) l) (drop (length key + 2) l)) in
    let same : stripped ≡ line =
      rw
        (← append_assoc line (b'\r' ∷ []) (b'\n' ∷ []), drop_last-append b'\n' (line ++ b'\r' ∷ []))
        (drop_last-append b'\r' line) in
    let at : find (codes ": ") stripped ≡ some (length key) =
      ap (find (codes ": ")) same ∙ find-header_line key value h in
    let found : parse_http_head c (line ++ b'\r' ∷ b'\n' ∷ []) ≡ put stripped =
      rw (parse_http_head, at) refl in
    found
    ∙ ap put same
    ∙ ap (λ k. (true, with_header c k (drop (length key + 2) line))) (take-header_line key value)
    ∙ ap (λ v. (true, with_header c key v)) (drop-header_line key value)

not_blank : (line : List ℕ) → 2 < length line → is_blank_line line ≡ false
unfolding is_blank_line
not_blank line h = elim (Bool-cases (eq_bytes line (b'\r' ∷ b'\n' ∷ []))) [
  | inl t ↦ absurd (omega (arith, h, ap length (eq_bytes→eq line (b'\r' ∷ b'\n' ∷ []) t)))
  | inr f ↦ elim (Bool-cases (eq_bytes line (b'\n' ∷ []))) [
    | inl t ↦ absurd (omega (arith, h, ap length (eq_bytes→eq line (b'\n' ∷ []) t)))
    | inr g ↦ rw (f, g) refl
  ]
]

-- The header lines, the blank line and what follows them.
unfoldable pub head_text : Table → List ℕ → List ℕ
unfolding header_line
head_text [] rest = line_then [] rest
head_text ((key, value) ∷ headers) rest = line_then (header_line key value) (head_text headers rest)

-- The request that has these headers too.
unfoldable pub add_headers : HttpRequest → Table → HttpRequest
add_headers r [] = r
add_headers r ((key, value) ∷ headers) = add_headers (set_header r key value) headers

abbrev pub with_headers : HttpContext → Table → HttpContext
with_headers c headers = record c { request = add_headers c.request headers }

-- A header that RecvHttpHead can take apart again, on a line that is not too long.
abbrev pub IsHeader : List ℕ × List ℕ → Type 0
IsHeader (key, value) =
    Avoids b':' key × Avoids b'\n' key × Avoids b'\n' value × (length key + length value + 4 ≤ 8192)

header_line-Avoids :
    (key value : List ℕ)
    → Avoids b'\n' key
    → Avoids b'\n' value
    → Avoids b'\n' (header_line key value)
unfolding header_line
header_line-Avoids key value hk hv =
    Avoids-append b'\n' key (b':' ∷ b' ' ∷ value) hk
      ((λ e. ground arith), ((λ e. ground arith), hv))

length-header_line :
    (key value : List ℕ) → length (header_line key value) ≡ length key + length value + 2
unfolding header_line
length-header_line key value = omega (arith, length-append key (b':' ∷ b' ' ∷ value))

length-head_text :
    (headers : Table) (rest : List ℕ) → length headers < length (head_text headers rest)
unfolding head_text
length-head_text [] rest = omega arith
length-head_text ((key, value) ∷ headers) rest =
    let more = head_text headers rest in
    omega (
      arith,
      length-append (header_line key value) (b'\r' ∷ b'\n' ∷ more),
      length-head_text headers rest,
    )

-- A round with a header line, and the round with the blank line.
header_round :
    (fuel : ℕ) (c : HttpContext) (key value : List ℕ) (b : Buffer)
    → IsHeader (key, value)
    → head_received (head_loop fuel) c (header_line key value ++ b'\r' ∷ b'\n' ∷ []) b
      ≡ head_loop fuel (with_header c key value) b
unfolding head_received head_parsed
header_round fuel c key value b h =
    let line : List ℕ = header_line key value ++ b'\r' ∷ b'\n' ∷ [] in
    let len : length line ≡ length key + length value + 4 = omega (
      arith,
      length-append (header_line key value) (b'\r' ∷ b'\n' ∷ []),
      length-header_line key value,
    ) in
    let f : (length line == 0) ≡ false = ground (arith, len) in
    let k : ltb 8192 (length line) ≡ false = ground (arith, len, h.3) in
    rw (f, k, not_blank line (omega (arith, len)), parse_http_head-header_line c key value h.0) refl

blank_round :
    (fuel : ℕ) (c : HttpContext) (b : Buffer)
    → head_received (head_loop fuel) c (b'\r' ∷ b'\n' ∷ []) b
      ≡ ok (success, record c { recv_status = recv_body }, b)
unfolding head_received is_blank_line eq_bytes
blank_round fuel c b = refl

head_loop_lem :
    (headers : Table) (fuel : ℕ) (c : HttpContext) {b : Buffer} (rest : List ℕ)
    → IsValid b
    → All IsHeader headers
    → length headers < fuel
    → contents b ≡ head_text headers rest
    → (b' : Buffer) × IsValid b'
      × (contents b' ≡ rest)
      × (head_loop fuel c b
          ≡ ok (success, record (with_headers c headers) { recv_status = recv_body }, b'))
unfolding head_loop head_text add_headers with_header
head_loop_lem headers zero c rest v h enough e = absurd (omega arith)
head_loop_lem [] (suc fuel) c rest v h enough e =
    let (b', v', e', g) = next_line [] rest v tt e in
    (b', v', e', rw (head_loop, g) (blank_round fuel c b'))
head_loop_lem ((key, value) ∷ headers) (suc fuel) c rest v h enough e =
    let line : List ℕ = header_line key value in
    let avoids = header_line-Avoids key value h.0.1 h.0.2 in
    let (b1, v1, e1, g) = next_line line (head_text headers rest) v avoids e in
    let (b', v', e', k) =
      head_loop_lem headers fuel (with_header c key value) rest v1 h.1 (omega arith) e1 in
    (b', v', e', rw (head_loop, g, header_round fuel c key value b1 h.0) k)

-- RecvHttpHead takes the header lines and the blank line.
pub recv_http_head_lem :
    (headers : Table) (c : HttpContext) {b : Buffer} (rest : List ℕ)
    → IsValid b
    → c.recv_status ≡ recv_head
    → All IsHeader headers
    → contents b ≡ head_text headers rest
    → (b' : Buffer) × IsValid b'
      × (contents b' ≡ rest)
      × (recv_http_head c b
          ≡ ok (success, record (with_headers c headers) { recv_status = recv_body }, b'))
unfolding recv_http_head
recv_http_head_lem headers c {b} rest v i h e =
    let enough : length headers < read_able_size b + 1 =
      omega (arith, length-head_text headers rest, ap length e, length-contents v) in
    let (b', v', e', k) = head_loop_lem headers (read_able_size b + 1) c rest v h enough e in
    let same : recv_http_head c b ≡ head_loop (read_able_size b + 1) c b =
      simp (i, recv_http_head) in
    (b', v', e', same ∙ k)
