-- ===== src/Tests/Xtask.antt =====
-- Runs of the build tasks (xtask/src).
use jbm.Prelude.{◌≡◌, refl, true, List, [], ◌∷◌, ok, Text, codes, if◌then◌else◌}
use jbm.Xtask.Words.{trim, trim_start, trim_end, is_whitespace, split_terminator}
use jbm.Xtask.Architecture.{bpf_el, text_eq}
use jbm.Xtask.BuildEbpf.{Host}
use jbm.Xtask.Run.{Options, run_words, build_command, main, run_task}
use jbm.Xtask.Run.Laws.{ebpf_command, last_command, ebpf_built, all_built, code_of, main_run}

runner_words : split_terminator (trim (codes " sudo -E ")) ≡ codes "sudo" ∷ (codes "-E" ∷ [])
unfolding split_terminator trim trim_start trim_end is_whitespace
runner_words = refl

-- A host on which the builds succeed and all other commands fail.
abbrev host : Host
host command = ok (text_eq command.program (codes "cargo"))

abbrev options : Options
options = record {
  bpf_target = bpf_el;
  release = true;
  runner = codes "sudo -E";
  run_args = codes "-p" ∷ (codes "1" ∷ []);
}

main_run_example :
    (program : Text) × (args : List Text) × (run_words options ≡ program ∷ args)
    × ((main host (run_task options)).0
        ≡ ebpf_command host options
          ∷ (if ebpf_built host options
              then build_command options
                ∷ (if all_built host options
                    then last_command host options program args ∷ []
                    else [])
              else []))
    × ((main host (run_task options)).1 ≡ (
        if all_built host options
        then code_of host options (host (last_command host options program args))
        else 101))
main_run_example = main_run host options
