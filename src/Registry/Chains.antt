-- ===== src/Registry/Chains.antt =====
-- constants/additionalChainRegistry: the value of `data` in each file, and the directory.
pub mod From10001
pub mod From1098
pub mod From124816
pub mod From13579
pub mod From14601
pub mod From181228
pub mod From200024
pub mod From2098
pub mod From2288
pub mod From287022981
pub mod From32380
pub mod From41295
pub mod From510003
pub mod From612044
pub mod From7000700
pub mod From870
pub mod From92870
use pricefeeding.Prelude.{List, [], ◌∷◌}
use pricefeeding.Registry.Js.{JsValue}
use From10001.{
  chainid_10001, chainid_10120, chainid_10121, chainid_102030, chainid_102031, chainid_102032,
  chainid_10323,
}
use From1098.{
  chainid_1098, chainid_11142220, chainid_1124, chainid_1125, chainid_12000, chainid_1233,
  chainid_12343,
}
use From124816.{
  chainid_124816, chainid_12865, chainid_129514, chainid_1314520, chainid_13145201,
  chainid_13374202, chainid_13441,
}
use From13579.{
  chainid_13579, chainid_1380012617, chainid_13863860, chainid_14, chainid_1409, chainid_1439,
  chainid_1440000,
}
use From14601.{
  chainid_14601, chainid_15000, chainid_1628, chainid_16601, chainid_16661, chainid_167012,
  chainid_1776,
}
use From181228.{
  chainid_181228, chainid_190278, chainid_190415, chainid_192, chainid_19416, chainid_198724,
  chainid_1990,
}
use From200024.{
  chainid_200024, chainid_2020, chainid_202506, chainid_202555, chainid_202599, chainid_2027,
  chainid_2030232745,
}
use From2098.{
  chainid_2098, chainid_210000, chainid_2105, chainid_2107, chainid_2201, chainid_220312,
  chainid_222888,
}
use From2288.{
  chainid_2288, chainid_2372, chainid_239, chainid_259251, chainid_2691, chainid_2692,
  chainid_286022981,
}
use From287022981.{
  chainid_287022981, chainid_28802, chainid_288022981, chainid_2892, chainid_299792, chainid_299892,
  chainid_3109,
}
use From32380.{
  chainid_32380, chainid_32769, chainid_33101, chainid_33469, chainid_347, chainid_37771,
  chainid_4048,
}
use From41295.{
  chainid_41295, chainid_4227, chainid_463, chainid_484, chainid_5031, chainid_504, chainid_510,
}
use From510003.{
  chainid_510003, chainid_51014, chainid_5151, chainid_5151706, chainid_5432, chainid_586,
  chainid_5887,
}
use From612044.{
  chainid_612044, chainid_612055, chainid_61900, chainid_65000000, chainid_65010004,
  chainid_65536001, chainid_688688,
}
use From7000700.{
  chainid_7000700, chainid_7131, chainid_7890, chainid_8006, chainid_8125, chainid_8338,
  chainid_843843,
}
use From870.{
  chainid_870, chainid_8700, chainid_8721, chainid_88888, chainid_9, chainid_90025, chainid_9030,
}
use From92870.{
  chainid_92870, chainid_9601, chainid_9745, chainid_9746, chainid_9747, chainid_97741, chainid_999,
}

-- The files `chainid-*.js`, in the order in which `filepath.Glob` lists them.
unfoldable pub registry : List JsValue
registry =
    chainid_10001 ∷ chainid_10120 ∷ chainid_10121 ∷ chainid_102030 ∷ chainid_102031 ∷ chainid_102032
    ∷ chainid_10323 ∷ chainid_1098 ∷ chainid_11142220 ∷ chainid_1124 ∷ chainid_1125 ∷ chainid_12000
    ∷ chainid_1233 ∷ chainid_12343 ∷ chainid_124816 ∷ chainid_12865 ∷ chainid_129514
    ∷ chainid_1314520 ∷ chainid_13145201 ∷ chainid_13374202 ∷ chainid_13441 ∷ chainid_13579
    ∷ chainid_1380012617 ∷ chainid_13863860 ∷ chainid_14 ∷ chainid_1409 ∷ chainid_1439
    ∷ chainid_1440000 ∷ chainid_14601 ∷ chainid_15000 ∷ chainid_1628 ∷ chainid_16601 ∷ chainid_16661
    ∷ chainid_167012 ∷ chainid_1776 ∷ chainid_181228 ∷ chainid_190278 ∷ chainid_190415 ∷ chainid_192
    ∷ chainid_19416 ∷ chainid_198724 ∷ chainid_1990 ∷ chainid_200024 ∷ chainid_2020 ∷ chainid_202506
    ∷ chainid_202555 ∷ chainid_202599 ∷ chainid_2027 ∷ chainid_2030232745 ∷ chainid_2098
    ∷ chainid_210000 ∷ chainid_2105 ∷ chainid_2107 ∷ chainid_2201 ∷ chainid_220312 ∷ chainid_222888
    ∷ chainid_2288 ∷ chainid_2372 ∷ chainid_239 ∷ chainid_259251 ∷ chainid_2691 ∷ chainid_2692
    ∷ chainid_286022981 ∷ chainid_287022981 ∷ chainid_28802 ∷ chainid_288022981 ∷ chainid_2892
    ∷ chainid_299792 ∷ chainid_299892 ∷ chainid_3109 ∷ chainid_32380 ∷ chainid_32769 ∷ chainid_33101
    ∷ chainid_33469 ∷ chainid_347 ∷ chainid_37771 ∷ chainid_4048 ∷ chainid_41295 ∷ chainid_4227
    ∷ chainid_463 ∷ chainid_484 ∷ chainid_5031 ∷ chainid_504 ∷ chainid_510 ∷ chainid_510003
    ∷ chainid_51014 ∷ chainid_5151 ∷ chainid_5151706 ∷ chainid_5432 ∷ chainid_586 ∷ chainid_5887
    ∷ chainid_612044 ∷ chainid_612055 ∷ chainid_61900 ∷ chainid_65000000 ∷ chainid_65010004
    ∷ chainid_65536001 ∷ chainid_688688 ∷ chainid_7000700 ∷ chainid_7131 ∷ chainid_7890
    ∷ chainid_8006 ∷ chainid_8125 ∷ chainid_8338 ∷ chainid_843843 ∷ chainid_870 ∷ chainid_8700
    ∷ chainid_8721 ∷ chainid_88888 ∷ chainid_9 ∷ chainid_90025 ∷ chainid_9030 ∷ chainid_92870
    ∷ chainid_9601 ∷ chainid_9745 ∷ chainid_9746 ∷ chainid_9747 ∷ chainid_97741 ∷ chainid_999 ∷ []
