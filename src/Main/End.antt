-- ===== src/Main/End.antt =====
-- src/main.rs, `run`: what follows the loop over the events.
use usbscope.Prelude.{ℕ, ◌<◌, ◌^◌, ◌≡◌, ◌↔◌, refl, Bool, true, false, Option, none, some, []}
use usbscope.Prelude.Result.{Result, ok}
use usbscope.Common.Meta.{CaptureStats}
use usbscope.Capture.Event.{Spool}
use usbscope.Capture.Reassembler.State.{Reassembler}
use usbscope.Main.Losses.{
  end_stats, check_losses, IsWhole, KernelIsLossless, Lossless, count_all, check_losses-open,
  check_losses-Lossless,
}

-- Where the events of a capture came from, and how its loop ended: a pcapng capture with the
-- incomplete events of its reader, a raw archive, or the devices with the kernel's counters. Only the
-- loops over a file know whether a limit stopped them.
pub data Source : Type 0 where
  pcapng : (stopped : Bool) (incomplete : ℕ) → Source
  archive : (stopped : Bool) → Source
  live : (kernel : CaptureStats) → Source

-- offline_stop
abbrev pub offline_stop : Source → Bool
offline_stop (pcapng stopped incomplete) = stopped
offline_stop (archive stopped) = stopped
offline_stop (live kernel) = false

-- pcap_incomplete
abbrev pub pcap_incomplete : Source → ℕ
pcap_incomplete (pcapng stopped incomplete) = incomplete
pcap_incomplete (archive stopped) = 0
pcap_incomplete (live kernel) = 0

-- kernel
abbrev pub kernel_stats : Source → Option CaptureStats
kernel_stats (pcapng stopped incomplete) = none
kernel_stats (archive stopped) = none
kernel_stats (live kernel) = some kernel

-- The end of `run`, behind the loop.
unfoldable pub end_run : {S : Spool} → Bool → Source → Reassembler S → Result (Unit {0})
end_run fail_on_loss source r =
    check_losses fail_on_loss (end_stats (offline_stop source) (pcap_incomplete source) r)
      (kernel_stats source)

-- Nothing was lost. Events that are unfinished when a limit stops the reading of a file are no
-- losses; those that are unfinished when a live capture ends are, even if a limit ended it. Errors
-- of submission, which the kernel counts too, are no losses.
abbrev pub NothingLost : {S : Spool} → Source → Reassembler S → Type 0
NothingLost (pcapng stopped incomplete) r =
    IsWhole r.stats × (stopped ≡ false → r.pending ≡ []) × (incomplete ≡ 0)
NothingLost (archive stopped) r = IsWhole r.stats × (stopped ≡ false → r.pending ≡ [])
NothingLost (live kernel) r = IsWhole r.stats × (r.pending ≡ []) × KernelIsLossless kernel

module _ {S : Spool} where
  Lossless-NothingLost :
      (source : Source) (r : Reassembler S)
      → Lossless (pcap_incomplete source) r (kernel_stats source) (offline_stop source)
        ↔ NothingLost source r
  Lossless-NothingLost (pcapng stopped incomplete) r =
      (λ (a, b, c, _). (a, b, c), λ (a, b, c). (a, b, c, tt))
  Lossless-NothingLost (archive stopped) r = (λ (a, b, _, _). (a, b), λ (a, b). (a, b, refl, tt))
  Lossless-NothingLost (live kernel) r =
      (λ (a, b, _, d). (a, b refl, d), λ (a, b, d). (a, λ _. b, refl, d))

  -- At the end of a capture whose counters, with its unfinished events, do not reach 2 ^ 64 together,
  -- there is an error exactly if --fail-on-loss was given and something was lost. Nothing is lost if
  -- no incomplete event was dropped, no record was without its event and no archive reported kernel
  -- losses; for a file, moreover, if no event is unfinished, unless a limit stopped the reading, and
  -- a pcapng reader counted no incomplete events; for a live capture, however it ended, if no event
  -- is unfinished and the kernel counted no ring losses, no read errors, no unsupported buffers and
  -- no errors of state.
  pub end_run-NothingLost :
      (fail_on_loss : Bool) (source : Source) (r : Reassembler S)
      → count_all (pcap_incomplete source) r (kernel_stats source) < 2 ^ 64
      → (end_run fail_on_loss source r ≡ ok tt) ↔ (fail_on_loss ≡ true → NothingLost source r)
  unfolding end_run
  end_run-NothingLost true source r small =
      let (a, b) =
        check_losses-Lossless (pcap_incomplete source) r (kernel_stats source) small
          (offline_stop source) in
      let (c, d) = Lossless-NothingLost source r in (λ h _. c (a h), λ n. b (d (n refl)))
  end_run-NothingLost false source r small =
      (λ _ h. absurd (cc), λ _. check_losses-open _ (kernel_stats source))
