-- ===== src/Task/Tuning/Decoders.antt =====
-- Which decoders a new frequency invalidates (`invalidate_main_decoder_windows_on_freq_change` of
-- src/trx-server/src/rig_task.rs), against the modes in which the tasks of the decoders run
-- (src/trx-server/src/audio.rs).
use mathlib.Core.Bool.{true≢false, false≢true}
use trx_rs.Common.{
  ℕ, Bool, true, false, not, ◌&&◌, ◌==◌, ◌≡◌, ◌≢◌, ◌↔◌, refl, sym, ◌∙◌, inl, inr, arith, Bool-cases,
  ==_iff, if◌then◌else◌,
}
use trx_rs.Rig.Types.{Freq, RigMode, pkt}
use trx_rs.Task.State.{RigState, DecoderResetSeqs, apply_freq}
use trx_rs.Task.Tuning.{bump, invalidated, retune, invalidate_main_decoder_windows}
use trx_rs.Task.Route.{History}
use trx_rs.Task.Tuning.Modes.{runs_in}

-- the counter that a decoder watches
abbrev pub seq : History → DecoderResetSeqs → ℕ
seq History.aprs q = q.aprs_decode_reset_seq
seq History.hf_aprs q = q.hf_aprs_decode_reset_seq
seq History.cw q = q.cw_decode_reset_seq
seq History.ft8 q = q.ft8_decode_reset_seq
seq History.ft4 q = q.ft4_decode_reset_seq
seq History.ft2 q = q.ft2_decode_reset_seq
seq History.wspr q = q.wspr_decode_reset_seq
seq History.lrpt q = q.lrpt_decode_reset_seq
seq History.wefax q = q.wefax_decode_reset_seq

-- the decoders of images, whose counters the task leaves alone
abbrev pub is_image : History → Bool
is_image History.lrpt = true
is_image History.wefax = true
is_image _ = false

abbrev listens : History → RigMode → Bool
listens d m = runs_in d m && not (is_image d)

bump-ne : (n : ℕ) → bump n ≢ n
unfolding bump
bump-ne n e = omega arith

invalidated-seq :
    (m : RigMode) (d : History) (q : DecoderResetSeqs)
    → seq d (invalidated m q) ≡ (if listens d m then bump (seq d q) else seq d q)
unfolding invalidated
invalidated-seq pkt History.aprs q = refl
invalidated-seq m d q = ground arith

retune-bump :
    (f : Freq) (s : RigState) (d : History)
    → let n = seq d s.reset_seqs in
      seq d (retune f s).reset_seqs
      ≡ (if f.hz == s.status.freq.hz then n else if listens d s.status.mode then bump n else n)
unfolding retune invalidate_main_decoder_windows apply_freq
retune-bump f s d = elim (Bool-cases (f.hz == s.status.freq.hz)) [
  | inl same ↦ rw same
  | inr differs ↦ rw differs (invalidated-seq s.status.mode d s.reset_seqs)
]

changed :
    (same hears : Bool) (n : ℕ)
    → ((if same then n else if hears then bump n else n) ≢ n) ↔ ((same ≡ false) × (hears ≡ true))
changed true hears n = (λ h. absurd (h refl), λ p. absurd (true≢false p.0))
changed false true n = (λ h. (refl, refl), λ p. bump-ne n)
changed false false n = (λ h. absurd (h refl), λ p. absurd (false≢true p.1))

-- A new frequency changes the reset counter of a decoder exactly if it differs from the old one,
-- the task of the decoder runs in the mode of the rig, and the decoder is neither the one for
-- LRPT nor the one for WEFAX: these two keep their counters in every mode.
pub retune-seq :
    (f : Freq) (s : RigState) (d : History)
    → (seq d (retune f s).reset_seqs ≢ seq d s.reset_seqs)
      ↔ ((f.hz ≢ s.status.freq.hz) × ((runs_in d s.status.mode ≡ true) × (is_image d ≡ false)))
retune-seq f s d =
    let test = f.hz == s.status.freq.hz in
    let law = changed test (listens d s.status.mode) (seq d s.reset_seqs) in
    (
      λ h.
          let p = law.0 (λ e. h (retune-bump f s d ∙ e)) in
          (λ e. false≢true (sym p.0 ∙ (==_iff f.hz s.status.freq.hz).1 e), heard p.1),
      λ p e. law.1 (differs p.0, ground (arith, p.1.0, p.1.1)) (sym (retune-bump f s d) ∙ e),
    )
  where
    heard : listens d s.status.mode ≡ true → (runs_in d s.status.mode ≡ true) × (is_image d ≡ false)
    heard h = (ground (arith, h), ground (arith, h))

    differs : f.hz ≢ s.status.freq.hz → (f.hz == s.status.freq.hz) ≡ false
    differs h = elim (Bool-cases (f.hz == s.status.freq.hz)) [
      | inl same ↦ absurd (h ((==_iff f.hz s.status.freq.hz).0 same))
      | inr unequal ↦ unequal
    ]
