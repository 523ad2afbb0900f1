-- ===== src/Tests/ModuleTests.antt =====
-- A whole module file with two constants and two functions.
use lgears.Prelude.{◌≡◌, arith, map}
use lgears.Prelude.Run.{ok, ◌>>=◌}
use lgears.Allocator.{heap_allocator}
use lgears.Loader.Layout.{put_functions, func_of}
use lgears.Loader.Fasl.Datum.{build_all}
use lgears.Loader.Module.{module_parse}
use lgears.Loader.Module.RoundTrip.{IsModule, put_module, module_parse-put_module}
use lgears.Tests.LoaderTests.{images, inner-IsImage, outer-IsImage}
use lgears.Tests.FaslTests.{names, thread, constants, constants-AreData}

file-IsModule : IsModule constants images 1
file-IsModule = record {
  consts = constants-AreData;
  few = omega arith;
  consts_size = omega arith;
  functions = (inner-IsImage, (outer-IsImage, tt));
  fun_count = omega arith;
  entry_point = omega arith;
}

module_parse-put_module_example :
    module_parse (heap_allocator 0 2) names 40 (put_module constants images 1) thread ≡ (
      build_all (heap_allocator 0 2) names constants (put_functions images) thread >>= λ r. ok (
        record { functions = map func_of images; fun_count = 2; entry_point = 1; consts = r.0 },
        r.1,
      ))
module_parse-put_module_example =
    module_parse-put_module (heap_allocator 0 2) names constants images 1 40 thread file-IsModule
      (omega arith)
