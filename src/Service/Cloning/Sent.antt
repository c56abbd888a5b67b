-- ===== src/Service/Cloning/Sent.antt =====
-- What a clone sends for each file.
use mathlib.Core.Option
use art_platform.Common.{
  ◌≡◌, ◌<◌, refl, true, false, none, some, List, [], ◌∷◌, ◌++◌, map, arith, if◌then◌else◌, nat_beq,
  length, find?, ◌==◌, string_eq, All,
}
use art_platform.Model.Modules.{PlatformFileIdentifier}
use art_platform.Service.ModuleService.{ApiCall, upload_file, clone_file, AllocatedModuleFile}
use art_platform.Service.Cloning.Defs.{send}

-- What the platform is asked for one file: its bytes are uploaded under its id, or, where it has
-- none, the file of the base module with its name is copied to its id.
abbrev pub request_for : List PlatformFileIdentifier → AllocatedModuleFile → ApiCall
request_for current file =
    if nat_beq (length (Option.get_or file.bytes [])) 0
    then clone_file (record {
      current_file_id = find? (λ f. f.name == file.id.name) current;
      new_file_id = file.id;
    })
    else upload_file (some file.id) (Option.get_or file.bytes [])

-- Where the base module has a list of files, every file is sent, in order, and nothing is thrown.
pub send_lem :
    (current : List PlatformFileIdentifier) (files : List AllocatedModuleFile)
    → send (some current) files ≡ (map (request_for current) files, false)
unfolding send
send_lem current [] = refl
send_lem current (file ∷ files) = ground (arith, send_lem current files)

-- Where the base module has none, the loop over the files is broken off at the first empty file,
-- and the files after it are not sent.
pub send_thrown :
    (files later : List AllocatedModuleFile) (file : AllocatedModuleFile)
    → All (λ f. 0 < length (Option.get_or f.bytes [])) files
    → Option.get_or file.bytes [] ≡ []
    → send none (files ++ file ∷ later) ≡ (map (request_for []) files, true)
unfolding send
send_thrown [] later file h e = ground arith
send_thrown (f ∷ files) later file h e = ground (arith, send_thrown files later file h.1 e)
