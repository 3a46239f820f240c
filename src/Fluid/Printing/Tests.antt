-- ===== src/Fluid/Printing/Tests.antt =====
-- The listing of the small tree of Samples.
use lsm_workload_aware_compa.Prelude.{◌≡◌, some, List, ◌++◌, arith}
use lsm_workload_aware_compa.Utils.Decimal.{newline}
use lsm_workload_aware_compa.Fluid.Structure.Files.{all_files}
use lsm_workload_aware_compa.Fluid.Printing.{print_fluid_lsm}
use lsm_workload_aware_compa.Fluid.Printing.Listing.{
  Line, text_of, files_of, print_fluid_lsm-files_of,
}
use lsm_workload_aware_compa.Fluid.Samples.{view}

print_fluid_lsm-files_of_example :
    (lines : List Line) × (print_fluid_lsm view ≡ some (text_of lines ++ newline))
    × (files_of lines ≡ all_files view)
print_fluid_lsm-files_of_example = print_fluid_lsm-files_of view (omega arith)
