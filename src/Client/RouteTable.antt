-- ===== src/Client/RouteTable.antt =====
-- The route table of the master reaches the client.
use distributed_system_based.Base.{
  ℕ, ◌^◌, ◌<◌, ◌≤◌, ◌≡◌, ◌∙◌, ap, sym, refl, arith, List, [], ◌∷◌, ◌++◌, some, true, false, All,
  map, append_assoc, append-nil, bytes_eq,
}
use distributed_system_based.Text.{
  codes, to_string, extract_int, extract_word, lines, drop_return, starts_with,
}
use distributed_system_based.Text.Numbers.{extract_int-to_string, print_head}
use distributed_system_based.Text.Words.{
  NoSpace, NoNewline, NoNewline-append, NoSpace-NoNewline, EndsWord, extract_word-append,
  extract_word-blank,
}
use distributed_system_based.Text.Lines.{
  lines-append, drop_return-append, to_string-NoNewline, Without, split_at-append,
  to_string-Without,
}
use distributed_system_based.Wire.Requests.{to_string_word}
use distributed_system_based.Client.{
  Row, Parsed, is_blank, trim_line, trim_front, trim_back, table_line, table_lines,
  build_route_table, parse_range, parse_ip_port, parse_words, parse_row, parse_lines,
  parse_route_table,
}

-- A row that the text can carry: the IP is a word without a colon, the numbers are those of an `int`.
pub record IsRow (row : Row) : Type 0 where
  pub ip_word : (c : ℕ) × (w : List ℕ) × (row.ip ≡ c ∷ w) × NoSpace (c ∷ w)
  pub no_colon : Without b':' row.ip
  pub index_fits : row.index < 2 ^ 31
  pub port_fits : row.port < 2 ^ 31
  pub start_fits : row.range.range_start < 2 ^ 31
  pub end_fits : row.range.range_end < 2 ^ 31

abbrev pub parsed : Row → Parsed
parsed row = record {
  index = some row.index;
  ip = row.ip;
  port = some row.port;
  range_start = some row.range.range_start;
  range_end = some row.range.range_end;
}

number_end : (n : ℕ) → n < 2 ^ 31 → extract_int (to_string n) ≡ some (some n, [])
number_end n h = ap extract_int (sym (append-nil (to_string n))) ∙ extract_int-to_string n [] h tt

NoSpace-append : (s t : List ℕ) → NoSpace s → NoSpace t → NoSpace (s ++ t)
NoSpace-append [] t hs ht = ht
NoSpace-append (c ∷ s) t (hc, hs) ht = (hc, NoSpace-append s t hs ht)

to_string-NoSpace : (n : ℕ) → NoSpace (to_string n)
to_string-NoSpace n = let (c, w, e, h) = to_string_word n in rw e h

-- The two words behind the index.
abbrev ip_port : Row → List ℕ
ip_port row = row.ip ++ (b':' ∷ to_string row.port)

abbrev range_str : Row → List ℕ
range_str row = to_string row.range.range_start ++ (b'-' ∷ to_string row.range.range_end)

abbrev bare_row : Row → List ℕ
bare_row row = to_string row.index ++ (32 ∷ (ip_port row ++ (32 ∷ range_str row)))

-- A word without blanks comes off the front, behind a blank.
word_lem :
    (word rest : List ℕ) (c : ℕ) (w : List ℕ)
    → word ≡ c ∷ w
    → NoSpace (c ∷ w)
    → EndsWord rest
    → extract_word (32 ∷ (word ++ rest)) ≡ some (word, rest)
word_lem word rest c w e h ends =
    extract_word-blank (word ++ rest) ∙ rw e (extract_word-append c w rest h ends)

module _ (row : Row) (h : IsRow row) where
  ip_port_word : (c : ℕ) × (w : List ℕ) × (ip_port row ≡ c ∷ w) × NoSpace (c ∷ w)
  ip_port_word =
      let (c, w, e, no_space) = h.ip_word in
      (
        c,
        w ++ (b':' ∷ to_string row.port),
        ap (λ (l : List ℕ). l ++ (b':' ∷ to_string row.port)) e,
        NoSpace-append (c ∷ w) (b':' ∷ to_string row.port) no_space
            (refl, to_string-NoSpace row.port),
      )

  range_word : (c : ℕ) × (w : List ℕ) × (range_str row ≡ c ∷ w) × NoSpace (c ∷ w)
  range_word =
      let (c, w, e, no_space) = to_string_word row.range.range_start in
      (
        c,
        w ++ (b'-' ∷ to_string row.range.range_end),
        ap (λ (l : List ℕ). l ++ (b'-' ∷ to_string row.range.range_end)) e,
        NoSpace-append (c ∷ w) (b'-' ∷ to_string row.range.range_end) no_space
            (refl, to_string-NoSpace row.range.range_end),
      )

  words_lem :
      parse_words (some (some row.index, ip_port row, range_str row)) ≡ some (some (parsed row))
  unfolding parse_words parse_ip_port parse_range
  words_lem = rw (split_at-append b':' row.ip (to_string row.port) h.no_colon) (
      rw (number_end row.port h.port_fits) (
        rw
          (split_at-append b'-' (to_string row.range.range_start) (to_string row.range.range_end)
            (to_string-Without b'-' row.range.range_start refl))
          (rw (number_end row.range.range_start h.start_fits)
            (rw (number_end row.range.range_end h.end_fits) refl))))

  range_end_word : extract_word (32 ∷ range_str row) ≡ some (range_str row, [])
  range_end_word =
      let (c, w, e, no_space) = range_word in
      ap (λ (l : List ℕ). extract_word (32 ∷ l)) (sym (append-nil (range_str row)))
      ∙ word_lem (range_str row) [] c w e no_space tt

  parse_row_lem : parse_row (bare_row row) ≡ some (some (parsed row))
  unfolding parse_row
  parse_row_lem =
      let (c, w, e, no_space) = ip_port_word in
      rw
        (extract_int-to_string row.index (32 ∷ (ip_port row ++ (32 ∷ range_str row))) h.index_fits
          refl)
        (rw (word_lem (ip_port row) (32 ∷ range_str row) c w e no_space refl)
          (rw range_end_word words_lem))

  bare_row-NoNewline : NoNewline (bare_row row ++ (13 ∷ []))
  bare_row-NoNewline =
      let (c, w, e, no_space) = ip_port_word in
      let (d, v, e', no_space') = range_word in
      NoNewline-append (bare_row row) (13 ∷ [])
        (NoNewline-append (to_string row.index) _ (to_string-NoNewline row.index) (
          refl,
          NoNewline-append (ip_port row) _ (rw e (NoSpace-NoNewline (c ∷ w) no_space))
              (refl, rw e' (NoSpace-NoNewline (d ∷ v) no_space')),
        ))
        (refl, tt)

  table_line-bare :
      (rest : List ℕ) → table_line row ++ rest ≡ (bare_row row ++ (13 ∷ [])) ++ (10 ∷ rest)
  unfolding table_line
  table_line-bare rest = simp append_assoc

trim_back-NoSpace : (w : List ℕ) → NoSpace w → trim_back w ≡ w
unfolding trim_back
trim_back-NoSpace [] h = refl
trim_back-NoSpace (c ∷ []) h = ground (arith, h.0)
trim_back-NoSpace (c ∷ d ∷ w) h = rw (trim_back-NoSpace (d ∷ w) h.1)

trim_back-append :
    (s : List ℕ) (c : ℕ) (w : List ℕ) → NoSpace (c ∷ w) → trim_back (s ++ (c ∷ w)) ≡ s ++ (c ∷ w)
unfolding trim_back
trim_back-append [] c w h = trim_back-NoSpace (c ∷ w) h
trim_back-append (b ∷ []) c w h = rw (trim_back-append [] c w h)
trim_back-append (b ∷ d ∷ s) c w h = rw (trim_back-append (d ∷ s) c w h)

-- A text from a digit to a word is trimmed already, and it is none of the other lines.
module _ (b : ℕ) (s : List ℕ) (low : 48 ≤ b) (high : b ≤ 57) where
  trim_line-digit :
      (c : ℕ) (w : List ℕ) → NoSpace (c ∷ w) → trim_line ((b ∷ s) ++ (c ∷ w)) ≡ (b ∷ s) ++ (c ∷ w)
  unfolding trim_line trim_front
  trim_line-digit c w h = rw blank (trim_back-append (b ∷ s) c w h)
    where
      blank : is_blank b ≡ false
      blank = ground arith

  not_title : bytes_eq (b ∷ s) (codes "ROUTETABLE") ≡ false
  unfolding bytes_eq
  not_title = ground arith

  not_head : starts_with (codes "INDEX") (b ∷ s) ≡ false
  unfolding starts_with
  not_head = ground arith

  not_end : bytes_eq (b ∷ s) (codes "END") ≡ false
  unfolding bytes_eq
  not_end = ground arith

  -- Such a line is parsed as a row.
  parse_lines-row :
      (raw : List ℕ) (more : List (List ℕ)) (row : Parsed) (rows : List Parsed)
      → trim_line (drop_return raw) ≡ b ∷ s
      → parse_row (b ∷ s) ≡ some (some row)
      → parse_lines true more ≡ some rows
      → parse_lines true (raw ∷ more) ≡ some (row ∷ rows)
  unfolding parse_lines
  parse_lines-row raw more row rows e r m =
      rw e (rw not_title (rw not_head (rw not_end (rw r (rw m refl)))))

module _ (row : Row) (h : IsRow row) (more : List (List ℕ)) (rows : List Parsed)
    (m : parse_lines true more ≡ some rows) where
  next_row : parse_lines true ((bare_row row ++ (13 ∷ [])) ∷ more) ≡ some (parsed row ∷ rows)
  next_row =
      let (b, t, e, low, high) = print_head 19 row.index [] in
      let digits : to_string row.index ≡ b ∷ t = unfold to_string in e in
      let whole : bare_row row ≡ b ∷ (t ++ (32 ∷ (ip_port row ++ (32 ∷ range_str row)))) =
        ap (λ (l : List ℕ). l ++ (32 ∷ (ip_port row ++ (32 ∷ range_str row)))) digits in
      let (c, w, e', no_space) = to_string_word row.range.range_end in
      let front : List ℕ =
        t ++ (32 ∷ (ip_port row ++ (32 ∷ (to_string row.range.range_start ++ (b'-' ∷ []))))) in
      let split : b ∷ (t ++ (32 ∷ (ip_port row ++ (32 ∷ range_str row))))
          ≡ (b ∷ front) ++ to_string row.range.range_end =
        simp append_assoc in
      parse_lines-row b (t ++ (32 ∷ (ip_port row ++ (32 ∷ range_str row)))) low high
        (bare_row row ++ (13 ∷ [])) more (parsed row) rows
        (ap trim_line (drop_return-append (bare_row row) ∙ whole ∙ split)
          ∙ rw e' (trim_line-digit b front low high c w no_space)
          ∙ sym split)
        (ap parse_row (sym whole) ∙ parse_row_lem row h) m

parse_lines-rows :
    (rows : List Row)
    → All IsRow rows
    → parse_lines true (lines (table_lines rows)) ≡ some (map parsed rows)
unfolding table_lines
parse_lines-rows [] h = last_line
  where
    last_line : parse_lines true (lines (codes "END\r\n")) ≡ some []
    last_line =
        unfold parse_lines lines drop_return trim_line trim_front trim_back bytes_eq starts_with in
        refl
parse_lines-rows (row ∷ rows) (hr, hs) = rw (table_line-bare row hr (table_lines rows)) (
    rw (lines-append (bare_row row ++ (13 ∷ [])) (table_lines rows) (bare_row-NoNewline row hr))
      (next_row row hr _ _ (parse_lines-rows rows hs)))

first_lines :
    (rest : List ℕ)
    → lines (codes "ROUTETABLE\r\n" ++ (codes "INDEX | IP:PORT | RANGE\r\n" ++ rest))
      ≡ codes "ROUTETABLE\r" ∷ codes "INDEX | IP:PORT | RANGE\r" ∷ lines rest
first_lines rest =
    lines-append (codes "ROUTETABLE\r") (codes "INDEX | IP:PORT | RANGE\r\n" ++ rest) (ground arith)
    ∙ ap (λ (l : List (List ℕ)). codes "ROUTETABLE\r" ∷ l)
        (lines-append (codes "INDEX | IP:PORT | RANGE\r") rest (ground arith))

skip_head :
    (more : List (List ℕ))
    → parse_lines false (codes "ROUTETABLE\r" ∷ codes "INDEX | IP:PORT | RANGE\r" ∷ more)
      ≡ parse_lines true more
unfolding parse_lines drop_return trim_line trim_front trim_back bytes_eq starts_with
skip_head more = refl

-- A route table of rows whose IPs are words without a colon and whose numbers fit an `int` is parsed
-- by the client into just these rows, in order; the client accepts it if there is a row.
pub parse_route_table-build_route_table :
    (row : Row) (rows : List Row)
    → All IsRow (row ∷ rows)
    → parse_route_table (build_route_table (row ∷ rows)) ≡ some (true, map parsed (row ∷ rows))
unfolding parse_route_table build_route_table
parse_route_table-build_route_table row rows h =
    rw (first_lines (table_lines (row ∷ rows))) (
      rw (skip_head (lines (table_lines (row ∷ rows)))) (rw (parse_lines-rows (row ∷ rows) h) refl))
