-- ===== src/Tss/Words.antt =====
-- The words of the gdt that trap_init_percpu writes.
use comp530h.Base.{
  ℕ, ◌+◌, ◌*◌, ◌/◌, ◌^◌, ◌<◌, ◌≡◌, ◌≢◌, ap, ◌∙◌, lt→ltb, update, update_self, update_ne, arith,
}
use comp530h.Tss.{
  gdt_pd, shift16, settss, sts_t64a, sizeof_taskstate, gd_tss0, low_word, high_word, clear_s,
  write_tss, clear_slot, put_descriptor, load_tss, set_busy,
}
use comp530h.Tss.Fields.{clear_s-settss}

shift16-gdt_pd : (gdt : ℕ) → gdt < 2 ^ 47 → shift16 (gdt_pd gdt) ≡ gdt
shift16-gdt_pd gdt h = rw (lt→ltb (gdt_pd gdt) (2 ^ 63) (omega arith)) (omega arith)

-- A descriptor of two words at `a`, the first written again.
module _ (words : ℕ → ℕ) (a l r : ℕ) where
  abbrev put_words : ℕ → ℕ
  put_words = update (update words a l) (a + 8) r

  abbrev written : ℕ → ℕ
  written = update put_words a l

  put_words-low : put_words a ≡ l
  put_words-low = ground arith

  written-high : written (a + 8) ≡ r
  written-high = ground arith

  written-other : (b : ℕ) → b ≢ a → b ≢ a + 8 → written b ≡ words b
  written-other b n n8 = ground arith

-- The address of the descriptor of CPU `id`
abbrev pub tss_slot : (gdt id : ℕ) → ℕ
tss_slot gdt id = gdt + 40 + 16 * id

-- Its words on CPU `c`
abbrev pub tss_word : (cpu_ts : ℕ → ℕ) (c : ℕ) → ℕ
tss_word cpu_ts c = low_word (settss sts_t64a (cpu_ts c) sizeof_taskstate)

abbrev pub tss_high : (cpu_ts : ℕ → ℕ) (c : ℕ) → ℕ
tss_high cpu_ts c = high_word (settss sts_t64a (cpu_ts c) sizeof_taskstate)

module _ (gdt : ℕ) (cpu_ts : ℕ → ℕ) (h : gdt < 2 ^ 47) where
  slot_lem : (id : ℕ) → gdt + 8 * (gd_tss0 / 2 ^ 3 + 2 * id) ≡ tss_slot gdt id
  slot_lem id = omega arith

  write_tss_lem :
      (c id : ℕ) (words : ℕ → ℕ)
      → write_tss gdt cpu_ts c id words
        ≡ written words (tss_slot gdt id) (tss_word cpu_ts c) (tss_high cpu_ts c)
  write_tss_lem c id words =
      let w = put_words words (tss_slot gdt id) (tss_word cpu_ts c) (tss_high cpu_ts c) in
      let d = settss sts_t64a (cpu_ts c) sizeof_taskstate in
      ap (λ a. clear_slot gdt id (put_descriptor (a + 40 + 16 * id) d words)) (shift16-gdt_pd gdt h)
      ∙ ap (λ a. update w a (clear_s (w a))) (slot_lem id)
      ∙ ap (λ v. update w (tss_slot gdt id) (clear_s v))
          (put_words-low words (tss_slot gdt id) (tss_word cpu_ts c) (tss_high cpu_ts c))
      ∙ ap (update w (tss_slot gdt id)) (clear_s-settss (cpu_ts c) sizeof_taskstate)

  write_tss-low :
      (c id : ℕ) (words : ℕ → ℕ)
      → write_tss gdt cpu_ts c id words (tss_slot gdt id) ≡ tss_word cpu_ts c
  write_tss-low c id words =
      ap (λ f. f (tss_slot gdt id)) (write_tss_lem c id words)
      ∙ update_self (put_words words (tss_slot gdt id) (tss_word cpu_ts c) (tss_high cpu_ts c))
          (tss_slot gdt id) (tss_word cpu_ts c)

  write_tss-high :
      (c id : ℕ) (words : ℕ → ℕ)
      → write_tss gdt cpu_ts c id words (tss_slot gdt id + 8) ≡ tss_high cpu_ts c
  write_tss-high c id words =
      ap (λ f. f (tss_slot gdt id + 8)) (write_tss_lem c id words)
      ∙ written-high words (tss_slot gdt id) (tss_word cpu_ts c) (tss_high cpu_ts c)

  write_tss-other :
      (c id : ℕ) (words : ℕ → ℕ) (a : ℕ)
      → a ≢ tss_slot gdt id
      → a ≢ tss_slot gdt id + 8
      → write_tss gdt cpu_ts c id words a ≡ words a
  write_tss-other c id words a n n8 =
      ap (λ f. f a) (write_tss_lem c id words)
      ∙ written-other words (tss_slot gdt id) (tss_word cpu_ts c) (tss_high cpu_ts c) a n n8

  ltr_slot : (id : ℕ) → gdt + (gd_tss0 + id * 16) ≡ tss_slot gdt id
  ltr_slot id = omega arith

  -- With the mark of `ltr`
  load_tss_lem :
      (c id : ℕ) (words : ℕ → ℕ)
      → load_tss gdt cpu_ts c id words
        ≡ update (write_tss gdt cpu_ts c id words) (tss_slot gdt id) (set_busy (tss_word cpu_ts c))
  load_tss_lem c id words =
      let w = write_tss gdt cpu_ts c id words in
      ap (λ a. update w a (set_busy (w a))) (ltr_slot id)
      ∙ ap (λ v. update w (tss_slot gdt id) (set_busy v)) (write_tss-low c id words)

  pub load_tss-low :
      (c id : ℕ) (words : ℕ → ℕ)
      → load_tss gdt cpu_ts c id words (tss_slot gdt id) ≡ set_busy (tss_word cpu_ts c)
  load_tss-low c id words =
      ap (λ f. f (tss_slot gdt id)) (load_tss_lem c id words)
      ∙ update_self (write_tss gdt cpu_ts c id words) (tss_slot gdt id)
          (set_busy (tss_word cpu_ts c))

  load_tss-else :
      (c id : ℕ) (words : ℕ → ℕ) (a : ℕ)
      → a ≢ tss_slot gdt id
      → load_tss gdt cpu_ts c id words a ≡ write_tss gdt cpu_ts c id words a
  load_tss-else c id words a n =
      ap (λ f. f a) (load_tss_lem c id words)
      ∙ update_ne (write_tss gdt cpu_ts c id words) (tss_slot gdt id) a
          (set_busy (tss_word cpu_ts c)) n

  pub load_tss-high :
      (c id : ℕ) (words : ℕ → ℕ)
      → load_tss gdt cpu_ts c id words (tss_slot gdt id + 8) ≡ tss_high cpu_ts c
  load_tss-high c id words =
      load_tss-else c id words (tss_slot gdt id + 8) (omega arith) ∙ write_tss-high c id words

  pub load_tss-other :
      (c id : ℕ) (words : ℕ → ℕ) (a : ℕ)
      → a ≢ tss_slot gdt id
      → a ≢ tss_slot gdt id + 8
      → load_tss gdt cpu_ts c id words a ≡ words a
  load_tss-other c id words a n n8 =
      load_tss-else c id words a n ∙ write_tss-other c id words a n n8
