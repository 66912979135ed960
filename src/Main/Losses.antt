-- ===== src/Main/Losses.antt =====
-- src/main.rs: the end of a capture and `--fail-on-loss`. A u64 wraps around, as in the release
-- profile.
use usbscope.Prelude.{
  ℕ, ◌+◌, ◌%◌, ◌^◌, ◌<◌, ◌≡◌, ◌↔◌, refl, arith, Bool, true, false, not, ◌||◌, Option, none, some,
  [], length, length_0, ap, ◌==◌, ==→eq, ==→ne, if◌then◌else◌, Bool-cases, inl, inr,
}
use usbscope.Prelude.Result.{Result, ok, ensure, lost_or_incomplete_events}
use usbscope.Common.Meta.{CaptureStats}
use usbscope.Capture.Event.{Spool}
use usbscope.Capture.Reassembler.Push.{finish, stop_at_limit}
use usbscope.Capture.Reassembler.State.{Reassembler, ReassemblyStats, saturating_add}

-- The statistics at the end of a capture: whether a limit stopped it, and the incomplete events of a
-- pcapng reader.
unfoldable pub end_stats : {S : Spool} → Bool → ℕ → Reassembler S → ReassemblyStats
end_stats stopped incomplete r =
    let stats = (if stopped then stop_at_limit r else finish r).stats in
    record stats { incomplete = (stats.incomplete + incomplete) % 2 ^ 64 }

-- The losses that the assembler counts.
abbrev pub assembled_losses : ReassemblyStats → ℕ
assembled_losses stats =
    saturating_add (saturating_add stats.incomplete stats.orphan_records) stats.kernel_losses

-- The losses, with the kernel's counters after a live capture.
unfoldable pub losses : ReassemblyStats → Option CaptureStats → ℕ
losses stats none = assembled_losses stats
losses stats (some kernel) =
    (assembled_losses stats
      + (kernel.ring_losses + kernel.read_errors + kernel.unsupported_buffers + kernel.state_errors)
        % 2 ^ 64)
    % 2 ^ 64

-- The check at the end of `run`.
unfoldable pub check_losses : Bool → ReassemblyStats → Option CaptureStats → Result (Unit {0})
check_losses fail_on_loss stats kernel =
    ensure (not fail_on_loss || losses stats kernel == 0) lost_or_incomplete_events

-- The counters of the kernel that stand for losses.
pub record KernelIsLossless (k : CaptureStats) : Type 0 where
  pub ring : k.ring_losses ≡ 0
  pub read : k.read_errors ≡ 0
  pub unsupported : k.unsupported_buffers ≡ 0
  pub state : k.state_errors ≡ 0

abbrev pub NoKernelLosses : Option CaptureStats → Type 0
NoKernelLosses none = Unit
NoKernelLosses (some k) = KernelIsLossless k

-- The counters of the kernel that stand for losses, in a sum.
abbrev pub kernel_sum : Option CaptureStats → ℕ
kernel_sum none = 0
kernel_sum (some k) = k.ring_losses + k.read_errors + k.unsupported_buffers + k.state_errors

-- The assembler dropped no incomplete event, met no record without its event, and read no kernel
-- losses in an archive.
pub record IsWhole (stats : ReassemblyStats) : Type 0 where
  pub incomplete : stats.incomplete ≡ 0
  pub orphans : stats.orphan_records ≡ 0
  pub replayed : stats.kernel_losses ≡ 0

losses-zero :
    (stats : ReassemblyStats) (kernel : Option CaptureStats)
    → stats.incomplete + stats.orphan_records + stats.kernel_losses + kernel_sum kernel < 2 ^ 64
    → (losses stats kernel ≡ 0) ↔ (
        (stats.incomplete ≡ 0)
        × (stats.orphan_records ≡ 0)
        × (stats.kernel_losses ≡ 0)
        × NoKernelLosses kernel)
unfolding losses
losses-zero stats none small = (
  λ h. (omega (arith, h, small), omega (arith, h, small), omega (arith, h, small), tt),
  λ (a, b, c, d). omega (arith, a, b, c),
)
losses-zero stats (some k) small = (
  λ h. (
    omega (arith, h, small),
    omega (arith, h, small),
    omega (arith, h, small),
    record {
      ring = omega (arith, h, small);
      read = omega (arith, h, small);
      unsupported = omega (arith, h, small);
      state = omega (arith, h, small);
    },
  ),
  λ (a, b, c, d). omega (arith, a, b, c, d.ring, d.read, d.unsupported, d.state),
)

-- The counters of a capture together, with its unfinished events.
abbrev pub count_all : {S : Spool} → ℕ → Reassembler S → Option CaptureStats → ℕ
count_all incomplete r kernel =
    r.stats.incomplete
    + length r.pending
    + incomplete
    + r.stats.orphan_records
    + r.stats.kernel_losses
    + kernel_sum kernel

check_losses-zero :
    (stats : ReassemblyStats) (kernel : Option CaptureStats)
    → (check_losses true stats kernel ≡ ok tt) ↔ (losses stats kernel ≡ 0)
unfolding check_losses
check_losses-zero stats kernel = elim (Bool-cases (losses stats kernel == 0)) [
  | inl e ↦ (λ h. ==→eq _ _ e, λ h. rw e refl)
  | inr e ↦ (λ h. absurd (ground (arith, rw e at h)), λ h. absurd (==→ne _ _ e h))
]

pub check_losses-open :
    (stats : ReassemblyStats) (kernel : Option CaptureStats)
    → check_losses false stats kernel ≡ ok tt
unfolding check_losses
check_losses-open stats kernel = refl

-- Nothing is lost in the sums of the end.
abbrev pub Lossless : {S : Spool} → ℕ → Reassembler S → Option CaptureStats → Bool → Type 0
Lossless incomplete r kernel stopped =
    IsWhole r.stats × (stopped ≡ false → r.pending ≡ []) × (incomplete ≡ 0) × NoKernelLosses kernel

module _ {S : Spool} (incomplete : ℕ) (r : Reassembler S) (kernel : Option CaptureStats)
    (small : count_all incomplete r kernel < 2 ^ 64) where
  losses-Lossless :
      (stopped : Bool)
      → (losses (end_stats stopped incomplete r) kernel ≡ 0) ↔ Lossless incomplete r kernel stopped
  unfolding end_stats finish stop_at_limit
  losses-Lossless true =
      let (to, from) = losses-zero (end_stats true incomplete r) kernel (omega (arith, small)) in
      (
        λ h.
            let (a, b, c, d) = to h in
            (
              record { incomplete = omega (arith, a, small); orphans = b; replayed = c },
              (λ h. absurd (cc)),
              omega (arith, a, small),
              d,
            ),
        λ (n, _, read, d). from (omega (arith, n.incomplete, read), n.orphans, n.replayed, d),
      )
  losses-Lossless false =
      let (to, from) = losses-zero (end_stats false incomplete r) kernel (omega (arith, small)) in
      (
        λ h.
            let (a, b, c, d) = to h in
            (
              record { incomplete = omega (arith, a, small); orphans = b; replayed = c },
              (λ _. length_0 r.pending (omega (arith, a, small))),
              omega (arith, a, small),
              d,
            ),
        λ (n, finished, read, d).
            let none_left : length r.pending ≡ 0 = ap length (finished refl) in
            from (omega (arith, n.incomplete, read, none_left), n.orphans, n.replayed, d),
      )

  pub check_losses-Lossless :
      (stopped : Bool)
      → (check_losses true (end_stats stopped incomplete r) kernel ≡ ok tt)
        ↔ Lossless incomplete r kernel stopped
  check_losses-Lossless stopped =
      let (a, b) = check_losses-zero (end_stats stopped incomplete r) kernel in
      let (c, d) = losses-Lossless stopped in (λ h. c (a h), λ n. b (d n))
