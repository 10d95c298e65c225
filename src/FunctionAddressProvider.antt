-- ===== src/FunctionAddressProvider.antt =====
-- source/FunctionAddressProvider.cpp: the handles of the console's libraries, and the address of a
-- function in one of them. A handle 0 is the null pointer.
pub mod Branch
pub mod Handles
use function_patcher_module.Base.{
  ℕ, ◌+◌, ◌%◌, ◌^◌, bit_and, Bool, true, false, List, [], ◌∷◌, ◌==◌, if◌then◌else◌, not, ◌||◌, Text,
  text,
}
use function_patcher_module.Platform.{Platform, Memory, LibraryName}
use function_patcher_module.Patch.{RplHandling}

-- The branch at the head of an import's stub, followed: `word` is the instruction at `address`.
unfoldable pub follow_branch : ℕ → ℕ → ℕ
follow_branch address word =
    if bit_and word 0xfc000003 == 0x48000000
    then (let diff = bit_and word 0x01fffffc in
        let signed =
          if bit_and word 0x02000000 == 0x02000000 then (0xfe000000 + diff) % 2 ^ 32 else diff in
        (address + signed) % 2 ^ 32)
    else address

module _ (p : Platform) where
  -- The loop over the handles: the module of the first entry of the library, 0 where that is not
  -- loaded or there is none, and the handles after it.
  unfoldable pub module_of : ℕ → List RplHandling → ℕ × List RplHandling
  module_of library [] = (0, [])
  module_of library (r ∷ rs) =
      let (found, rest) = module_of library rs in
      if r.library == library
      then (if r.handle == 0
          then (let (ok, handle) = p.is_module_loaded r.rplname in
              (if ok then handle else 0, record r { handle = handle } ∷ rs))
          else (r.handle, r ∷ rs))
      else (found, r ∷ rest)

  -- The export's address in that module, followed through a branch at its head.
  unfoldable pub export_address : Memory → ℕ → Text → ℕ
  unfolding follow_branch
  export_address m rpl_handle name =
      if rpl_handle == 0
      then 0
      else (let address = p.find_export rpl_handle name in
          if address == 0 then 0 else follow_branch address (m (p.mmu address)))

  unfoldable pub get_effective_address_of_function :
      Memory → List RplHandling → ℕ → Text → ℕ × List RplHandling
  unfolding module_of export_address
  get_effective_address_of_function m handles library name =
      let (rpl_handle, handles') = module_of library handles in
      (export_address m rpl_handle name, handles')

  unfoldable pub get_type_for_handle : ℕ → List RplHandling → ℕ
  get_type_for_handle handle [] = p.library_code LibraryName.library_other
  get_type_for_handle handle (r ∷ rs) =
      if r.handle == handle then r.library else get_type_for_handle handle rs

  abbrev pub unloaded : LibraryName → Text → RplHandling
  unloaded library rplname = record {
    library = p.library_code library;
    rplname = rplname;
    handle = 0;
  }

  -- The table that a new provider starts with.
  unfoldable pub initial_rpl_handles : List RplHandling
  initial_rpl_handles =
      unloaded LibraryName.avm (text "avm.rpl")
      ∷ unloaded LibraryName.camera (text "camera.rpl")
      ∷ unloaded LibraryName.coreinit (text "coreinit.rpl")
      ∷ unloaded LibraryName.dc (text "dc.rpl")
      ∷ unloaded LibraryName.dmae (text "dmae.rpl")
      ∷ unloaded LibraryName.drmapp (text "drmapp.rpl")
      ∷ unloaded LibraryName.erreula (text "erreula.rpl")
      ∷ unloaded LibraryName.gx2 (text "gx2.rpl")
      ∷ unloaded LibraryName.h264 (text "h264.rpl")
      ∷ unloaded LibraryName.lzma920 (text "lzma920.rpl")
      ∷ unloaded LibraryName.mic (text "mic.rpl")
      ∷ unloaded LibraryName.nfc (text "nfc.rpl")
      ∷ unloaded LibraryName.nio_prof (text "nio_prof.rpl")
      ∷ unloaded LibraryName.nlibcurl (text "nlibcurl.rpl")
      ∷ unloaded LibraryName.nlibnss (text "nlibnss.rpl")
      ∷ unloaded LibraryName.nlibnss2 (text "nlibnss2.rpl")
      ∷ unloaded LibraryName.nn_ac (text "nn_ac.rpl")
      ∷ unloaded LibraryName.nn_acp (text "nn_acp.rpl")
      ∷ unloaded LibraryName.nn_act (text "nn_act.rpl")
      ∷ unloaded LibraryName.nn_aoc (text "nn_aoc.rpl")
      ∷ unloaded LibraryName.nn_boss (text "nn_boss.rpl")
      ∷ unloaded LibraryName.nn_ccr (text "nn_ccr.rpl")
      ∷ unloaded LibraryName.nn_cmpt (text "nn_cmpt.rpl")
      ∷ unloaded LibraryName.nn_dlp (text "nn_dlp.rpl")
      ∷ unloaded LibraryName.nn_ec (text "nn_ec.rpl")
      ∷ unloaded LibraryName.nn_fp (text "nn_fp.rpl")
      ∷ unloaded LibraryName.nn_hai (text "nn_hai.rpl")
      ∷ unloaded LibraryName.nn_hpad (text "nn_hpad.rpl")
      ∷ unloaded LibraryName.nn_idbe (text "nn_idbe.rpl")
      ∷ unloaded LibraryName.nn_ndm (text "nn_ndm.rpl")
      ∷ unloaded LibraryName.nn_nets2 (text "nn_nets2.rpl")
      ∷ unloaded LibraryName.nn_nfp (text "nn_nfp.rpl")
      ∷ unloaded LibraryName.nn_nim (text "nn_nim.rpl")
      ∷ unloaded LibraryName.nn_olv (text "nn_olv.rpl")
      ∷ unloaded LibraryName.nn_pdm (text "nn_pdm.rpl")
      ∷ unloaded LibraryName.nn_save (text "nn_save.rpl")
      ∷ unloaded LibraryName.nn_sl (text "nn_sl.rpl")
      ∷ unloaded LibraryName.nn_spm (text "nn_spm.rpl")
      ∷ unloaded LibraryName.nn_temp (text "nn_temp.rpl")
      ∷ unloaded LibraryName.nn_uds (text "nn_uds.rpl")
      ∷ unloaded LibraryName.nn_vctl (text "nn_vctl.rpl")
      ∷ unloaded LibraryName.nsysccr (text "nsysccr.rpl")
      ∷ unloaded LibraryName.nsyshid (text "nsyshid.rpl")
      ∷ unloaded LibraryName.nsyskbd (text "nsyskbd.rpl")
      ∷ unloaded LibraryName.nsysnet (text "nsysnet.rpl")
      ∷ unloaded LibraryName.nsysuhs (text "nsysuhs.rpl")
      ∷ unloaded LibraryName.nsysuvd (text "nsysuvd.rpl")
      ∷ unloaded LibraryName.ntag (text "ntag.rpl")
      ∷ unloaded LibraryName.padscore (text "padscore.rpl")
      ∷ unloaded LibraryName.proc_ui (text "proc_ui.rpl")
      ∷ unloaded LibraryName.sndcore2 (text "sndcore2.rpl")
      ∷ unloaded LibraryName.snduser2 (text "snduser2.rpl")
      ∷ unloaded LibraryName.snd_core (text "snd_core.rpl")
      ∷ unloaded LibraryName.snd_user (text "snd_user.rpl")
      ∷ unloaded LibraryName.swkbd (text "swkbd.rpl")
      ∷ unloaded LibraryName.sysapp (text "sysapp.rpl")
      ∷ unloaded LibraryName.tcl (text "tcl.rpl")
      ∷ unloaded LibraryName.tve (text "tve.rpl")
      ∷ unloaded LibraryName.uac (text "uac.rpl")
      ∷ unloaded LibraryName.uac_rpl (text "uac_rpl.rpl")
      ∷ unloaded LibraryName.usb_mic (text "usb_mic.rpl")
      ∷ unloaded LibraryName.uvc (text "uvc.rpl")
      ∷ unloaded LibraryName.uvd (text "uvd.rpl")
      ∷ unloaded LibraryName.vpad (text "vpad.rpl")
      ∷ unloaded LibraryName.vpadbase (text "vpadbase.rpl")
      ∷ unloaded LibraryName.zlib125 (text "zlib125.rpl")
      ∷ []

unfoldable pub reset_handles : List RplHandling → List RplHandling
reset_handles [] = []
reset_handles (r ∷ rs) = record r { handle = 0 } ∷ reset_handles rs

-- Whether an entry had the handle, and the handles after it.
unfoldable pub reset_handle : ℕ → List RplHandling → Bool × List RplHandling
reset_handle handle [] = (false, [])
reset_handle handle (r ∷ rs) =
    let (found, rest) = reset_handle handle rs in
    if r.handle == handle then (true, record r { handle = 0 } ∷ rs) else (found, r ∷ rest)
