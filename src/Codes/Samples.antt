-- ===== src/Codes/Samples.antt =====
-- A cache that keeps every entry, a renderer whose image is the content, a blob store without
-- faults, and an input, on which the theorems are tried.
use qurator.Common.{
  ◌∷◌, inl, inr, ℕ, false, some, [], Text, bytes, Dict, lookup, insert, delete, lookup-insert,
  lookup-delete, text_eq, text_beq_iff, Bool-cases, ◌==◌, arith,
}
use qurator.Domain.{mode_unset, ec_medium}
use qurator.Domain.Samples.{styling}
use qurator.Codes.Destination.{Url, Service}
use qurator.Codes.Prepare.{CreateInput}
use qurator.Codes.World.{Env, CacheLaws, Resolution}
use qurator.Codes.Create.{Chance}

abbrev pub env : Env (Dict Text Resolution)
env = record {
  cache_get = λ c k. lookup k c;
  cache_set = λ k r c. insert k r c;
  cache_invalidate = λ k c. delete k c;
  render = λ content s logo raise. some (content, ec_medium);
  detect = λ logo. bytes "image/png";
  put_fails = λ k. false;
  delete_fails = λ k. false;
  etag = λ png. png;
}

pub env-CacheLaws : CacheLaws env
env-CacheLaws = record {
  get-set = λ c j k r x got. elim (Bool-cases (k == j)) [
    | inl t ↦ inl ((text_beq_iff k j).0 t, ground (arith, lookup-insert j k r c))
    | inr f ↦ inr (ground (arith, lookup-insert j k r c))
  ];
  get-invalidate = λ c j k x got. elim (Bool-cases (k == j)) [
    | inl t ↦ absurd (ground (arith, lookup-delete j k c))
    | inr f ↦ (f, ground (arith, lookup-delete j k c))
  ];
}

abbrev pub qr_example : Url
qr_example = record {
  scheme = bytes "https";
  host = bytes "qr.example";
  hostname = bytes "qr.example";
  port = [];
  path = [];
}

abbrev pub service : Service
service = record {
  base = some qr_example;
  base_raw = bytes "https://qr.example";
  schemes = bytes "https" ∷ [];
  parse_url =
      λ s. some (record qr_example { host = bytes "a.example"; hostname = bytes "a.example" });
  batch_max = 500;
}

abbrev pub dice : ℕ → Chance
dice i = record {
  code_bytes = λ j. i;
  id_bytes = λ j. i;
  styling_bytes = λ j. i;
  at = 10;
  stored_at = 11;
}

abbrev pub menu : CreateInput
menu = record {
  user_id = bytes "ann";
  mode = mode_unset;
  destination = bytes "https://a.example";
  alias = bytes "Menu";
  styling = styling;
  logo = [];
  logo_auto_raise = false;
  client_ref = [];
}
