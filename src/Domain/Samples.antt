-- ===== src/Domain/Samples.antt =====
-- A row of a code, on which the theorems are tried.
use qurator.Common.{true, none, Text, [], bytes}
use qurator.Domain.{Code, state_unset, mode_unset, Styling, shape_square, ec_medium}

abbrev pub styling : Styling
styling = record {
  id = bytes "sty_1";
  fg_color = bytes "#000000";
  bg_color = bytes "#FFFFFF";
  module_shape = shape_square;
  margin_modules = 4;
  size_px = 512;
  ec_level = ec_medium;
  ec_level_effective = ec_medium;
  logo_blob_key = [];
  logo_scale = 0;
}

-- a row as a caller hands it to CreateCodes
abbrev pub draft : Text → Text → Code
draft id short_code = record {
  id = id;
  short_code = short_code;
  is_alias = true;
  user_id = bytes "ann";
  mode = mode_unset;
  client_ref = [];
  destination = bytes "https://a.example";
  state = state_unset;
  styling = styling;
  blob_key = [];
  blob_etag = [];
  version = 0;
  created_at = 0;
  updated_at = 0;
  deleted_at = none;
}
