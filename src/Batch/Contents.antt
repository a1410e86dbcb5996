-- ===== src/Batch/Contents.antt =====
-- A batch is the sequence of its updates.
use distributed_system_based.Base.{
  ℕ, zero, suc, ◌+◌, ◌%◌, ◌^◌, ◌<◌, ◌≤◌, ◌≡◌, ◌∙◌, ap, sym, refl, arith, List, [], ◌∷◌, ◌++◌, some,
  false, length, take, drop, replicate, All, All-append, append-nil, append_assoc, length-append,
  take-append_exact, drop-append_exact, ltb,
}
use distributed_system_based.Coding.{IsU32, encode_fixed32, decode_fixed32}
use distributed_system_based.Coding.Fixed.{decode_fixed32-encode_fixed32, length-encode_fixed32}
use distributed_system_based.Coding.Slices.{
  length_prefixed, put_length_prefixed_slice_lem, get-length_prefixed,
}
use distributed_system_based.Status.{ok}
use distributed_system_based.Batch.{
  Update, put, delete, cleared, count, set_count, batch_put, batch_delete, batch_append,
  read_update, after_call, iterate_loop, iterate,
}

-- The bytes of a record, and of records in turn.
unfoldable pub record_body : Update → List ℕ
record_body (put key value) = length_prefixed key ++ length_prefixed value
record_body (delete key) = length_prefixed key

abbrev pub tag_of : Update → ℕ
tag_of (put key value) = 1
tag_of (delete key) = 0

abbrev pub records : List Update → List ℕ
records [] = []
records (u ∷ us) = tag_of u ∷ (record_body u ++ records us)

abbrev pub Fits : Update → Type 0
Fits (put key value) = IsU32 (length key) × IsU32 (length value)
Fits (delete key) = IsU32 (length key)

records-append : (us vs : List Update) → records (us ++ vs) ≡ records us ++ records vs
records-append [] vs = refl
records-append (u ∷ us) vs =
    ap (λ (l : List ℕ). tag_of u ∷ l)
      (ap (λ (l : List ℕ). record_body u ++ l) (records-append us vs)
        ∙ sym (append_assoc (record_body u) (records us) (records vs)))

-- The representation of a batch of updates.
pub record IsBatch (rep : List ℕ) (updates : List Update) : Type 0 where
  pub front : List ℕ
  pub front_length : length front ≡ 8
  pub shape : rep ≡ front ++ (encode_fixed32 (length updates) ++ records updates)
  pub few : length updates < 2 ^ 31
  pub fits : All Fits updates

module _ (rep : List ℕ) (updates : List Update) (b : IsBatch rep updates) where
  pub count-IsBatch : count rep ≡ some (length updates)
  unfolding count
  count-IsBatch =
      ap (λ (l : List ℕ). decode_fixed32 (drop 8 l)) b.shape
      ∙ ap decode_fixed32 (drop-append_exact 8 b.front _ (omega (arith, b.front_length)))
      ∙ decode_fixed32-encode_fixed32 (length updates) (records updates) (omega (arith, b.few))

  pub drop-IsBatch : drop 12 rep ≡ records updates
  drop-IsBatch =
      ap (λ (l : List ℕ). drop 12 l)
        (b.shape ∙ sym (append_assoc b.front (encode_fixed32 (length updates)) (records updates)))
      ∙ drop-append_exact 12 (b.front ++ encode_fixed32 (length updates)) (records updates) (
          omega (
            arith,
            b.front_length,
            length-append b.front (encode_fixed32 (length updates)),
            length-encode_fixed32 (length updates),
          ))

  set_count-IsBatch : (n : ℕ) → set_count rep n ≡ b.front ++ (encode_fixed32 n ++ records updates)
  unfolding set_count
  set_count-IsBatch n =
      ap (λ (l : List ℕ). take 8 rep ++ (encode_fixed32 n ++ l)) drop-IsBatch
      ∙ ap (λ (l : List ℕ). l ++ (encode_fixed32 n ++ records updates))
          (ap (λ (l : List ℕ). take 8 l) b.shape
            ∙ take-append_exact 8 b.front _ (omega (arith, b.front_length)))

  -- Records behind a batch with its new count.
  grown :
      (more : List Update)
      → length updates + length more < 2 ^ 31
      → All Fits more
      → IsBatch
          (set_count rep ((length updates + length more) % 2 ^ 32) ++ records more)
          (updates ++ more)
  grown more room fits =
      let same : (length updates + length more) % 2 ^ 32 ≡ length (updates ++ more) =
        omega (arith, length-append updates more) in
      record {
        front = b.front;
        front_length = b.front_length;
        shape =
            ap (λ (l : List ℕ). l ++ records more) (set_count-IsBatch _)
            ∙ append_assoc b.front _ (records more)
            ∙ ap (λ (l : List ℕ). b.front ++ l)
                (append_assoc (encode_fixed32 ((length updates + length more) % 2 ^ 32))
                    (records updates) (records more)
                  ∙ ap
                      (λ (l : List ℕ).
                        encode_fixed32 ((length updates + length more) % 2 ^ 32) ++ l)
                      (sym (records-append updates more))
                  ∙ ap (λ (n : ℕ). encode_fixed32 n ++ records (updates ++ more)) same);
        few = omega (arith, length-append updates more);
        fits = All-append Fits updates more b.fits fits;
      }

  -- A batch with fewer than 2^31 - 1 updates takes another one behind them.
  pub batch_put-IsBatch :
      (key value : List ℕ)
      → length updates + 1 < 2 ^ 31
      → IsU32 (length key)
      → IsU32 (length value)
      → (rep' : List ℕ) × (batch_put rep key value ≡ some rep')
        × IsBatch rep' (updates ++ (put key value ∷ []))
  unfolding batch_put record_body
  batch_put-IsBatch key value room hk hv = (
    _,
    rw count-IsBatch (
        ap some (
          put_length_prefixed_slice_lem _ value
          ∙ ap (λ (l : List ℕ). l ++ length_prefixed value) (put_length_prefixed_slice_lem _ key)
          ∙ simp (append_assoc, append-nil))),
    grown (put key value ∷ []) room ((hk, hv), tt),
  )

  pub batch_delete-IsBatch :
      (key : List ℕ)
      → length updates + 1 < 2 ^ 31
      → IsU32 (length key)
      → (rep' : List ℕ) × (batch_delete rep key ≡ some rep')
        × IsBatch rep' (updates ++ (delete key ∷ []))
  unfolding batch_delete record_body
  batch_delete-IsBatch key room hk = (
    _,
    rw count-IsBatch
        (ap some (put_length_prefixed_slice_lem _ key ∙ simp (append_assoc, append-nil))),
    grown (delete key ∷ []) room (hk, tt),
  )

-- `Append` puts the updates of one batch behind those of another.
pub batch_append-IsBatch :
    (dst src : List ℕ) (updates more : List Update)
    → IsBatch dst updates
    → IsBatch src more
    → length updates + length more < 2 ^ 31
    → (rep' : List ℕ) × (batch_append dst src ≡ some rep') × IsBatch rep' (updates ++ more)
unfolding batch_append
batch_append-IsBatch dst src updates more b b' room = (
  _,
  rw (count-IsBatch dst updates b)
      (rw (count-IsBatch src more b') (rw (drop-IsBatch src more b') refl)),
  grown dst updates b more room b'.fits,
)

pub cleared-IsBatch : IsBatch cleared []
unfolding encode_fixed32
cleared-IsBatch = record {
  front = replicate 8 0;
  front_length = refl;
  shape = refl;
  few = omega arith;
  fits = tt;
}

pub read_update-record_body :
    (u : Update) (rest : List ℕ)
    → Fits u
    → read_update (tag_of u) (record_body u ++ rest) ≡ some (u, rest)
unfolding read_update record_body
read_update-record_body (put key value) rest (hk, hv) =
    rw (append_assoc (length_prefixed key) (length_prefixed value) rest) (
      rw (get-length_prefixed key (length_prefixed value ++ rest) hk)
        (rw (get-length_prefixed value rest hv) refl))
read_update-record_body (delete key) rest hk = rw (get-length_prefixed key rest hk) refl

iterate_loop-step :
    (fuel found tag : ℕ) (input : List ℕ) (u : Update) (rest : List ℕ)
    → read_update tag input ≡ some (u, rest)
    → iterate_loop (suc fuel) found (tag ∷ input)
      ≡ after_call u (iterate_loop fuel (found + 1) rest)
unfolding iterate_loop
iterate_loop-step fuel found tag input u rest e = rw (e, iterate_loop) refl

iterate_loop-records :
    (us : List Update) (fuel found : ℕ)
    → All Fits us
    → length (records us) ≤ fuel
    → iterate_loop fuel found (records us)
      ≡ record { calls = us; found = found + length us; status = ok }
unfolding iterate_loop
iterate_loop-records [] fuel found h enough = ground arith
iterate_loop-records (u ∷ us) zero found h enough = absurd (omega arith)
iterate_loop-records (u ∷ us) (suc fuel) found (hu, hs) enough =
    iterate_loop-step fuel found (tag_of u) (record_body u ++ records us) u (records us)
      (read_update-record_body u (records us) hu)
    ∙ ap (after_call u) (
        iterate_loop-records us fuel (found + 1) hs
          (omega (arith, length-append (record_body u) (records us))))
    ∙ ground arith

-- `Iterate` calls the handler with the updates of a batch, in their order, and ends with the status
-- OK; the count of the batch is right.
pub iterate-IsBatch :
    (rep : List ℕ) (updates : List Update)
    → IsBatch rep updates
    → iterate rep ≡ some (record { calls = updates; found = length updates; status = ok })
unfolding iterate
iterate-IsBatch rep updates b =
    let long : length rep ≡ 12 + length (records updates) = omega (
      arith,
      ap length b.shape,
      b.front_length,
      length-append b.front (encode_fixed32 (length updates) ++ records updates),
      length-append (encode_fixed32 (length updates)) (records updates),
      length-encode_fixed32 (length updates),
    ) in
    let big : ltb (length rep) 12 ≡ false = ground arith in
    rw big (
      rw (drop-IsBatch rep updates b) (
        rw (iterate_loop-records updates (length rep) 0 b.fits (omega arith))
          (rw (count-IsBatch rep updates b) (ground arith))))

module _ (rep : List ℕ) (updates : List Update) (b : IsBatch rep updates) where
  -- A batch of fewer than 2^31 - 1 updates takes a Put of a key and a value below 2^32 bytes, and
  -- `Iterate` then calls the handler with the old updates in their order and with the new one last.
  pub batch_put-iterate :
      (key value : List ℕ)
      → length updates + 1 < 2 ^ 31
      → IsU32 (length key)
      → IsU32 (length value)
      → (rep' : List ℕ) × (batch_put rep key value ≡ some rep')
        × (iterate rep'
            ≡ some (record {
              calls = updates ++ (put key value ∷ []);
              found = length (updates ++ (put key value ∷ []));
              status = ok;
            }))
  batch_put-iterate key value room hk hv =
      let (rep', e, b') = batch_put-IsBatch rep updates b key value room hk hv in
      (rep', e, iterate-IsBatch rep' (updates ++ (put key value ∷ [])) b')
