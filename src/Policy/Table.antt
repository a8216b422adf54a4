-- ===== src/Policy/Table.antt =====
-- The licence table of internal/policy/licences.go, row by row in its order.
use weightkeep.Prelude.{Text, codes, List, [], ◌∷◌, ◌++◌, Bool, true, false}

-- `Tier` of internal/policy/policy.go; a higher rank is stricter.
pub data Tier : Type 0 where
  a b1 b2 c : Tier

pub record Licence : Type 0 where
  pub hf_id : Text
  pub spdx : Text
  pub name : Text
  pub tier : Tier
  pub prints : List Text
  pub bundled : Bool
  pub note : Text

abbrev row : Text → Text → Text → Tier → Bool → List Text → Text → Licence
row hf_id spdx name tier bundled prints note = record {
  hf_id = hf_id;
  spdx = spdx;
  name = name;
  tier = tier;
  prints = prints;
  bundled = bundled;
  note = note;
}

unfoldable pub permissive : List Licence
permissive =
    row (codes "apache-2.0") (codes "Apache-2.0") (codes "Apache License 2.0") a true
      ((codes "apache license") ∷ (codes "version 2.0") ∷ []) ([])
    ∷ row (codes "mit") (codes "MIT") (codes "MIT License") a true
        ((codes "permission is hereby granted, free of charge") ∷ []) ([])
    ∷ row (codes "bsd-2-clause") (codes "BSD-2-Clause") (codes "BSD 2-Clause") a true
        ((codes "redistribution and use in source and binary forms") ∷ []) ([])
    ∷ row (codes "bsd-3-clause") (codes "BSD-3-Clause") (codes "BSD 3-Clause") a true
        ((codes "redistribution and use in source and binary forms")
          ∷ (codes "neither the name")
          ∷ [])
        ([])
    ∷ row (codes "bsd-3-clause-clear") (codes "BSD-3-Clause-Clear") (codes "BSD 3-Clause Clear") a
        true
        ((codes "redistribution and use in source and binary forms")
          ∷ (codes "no express or implied licenses to any party's patent rights")
          ∷ [])
        ([])
    ∷ row (codes "isc") (codes "ISC") (codes "ISC License") a true
        ((codes "permission to use, copy, modify, and/or distribute") ∷ []) ([])
    ∷ row (codes "zlib") (codes "Zlib") (codes "zlib License") a true
        ((codes "this software is provided 'as-is'") ∷ []) ([])
    ∷ row (codes "bsl-1.0") (codes "BSL-1.0") (codes "Boost Software License 1.0") a true
        ((codes "boost software license") ∷ []) ([])
    ∷ row (codes "cc0-1.0") (codes "CC0-1.0") (codes "CC0 1.0") a true ((codes "cc0 1.0") ∷ []) ([])
    ∷ row (codes "unlicense") (codes "Unlicense") (codes "The Unlicense") a true
        ((codes "free and unencumbered software released into the public domain") ∷ []) ([])
    ∷ row (codes "wtfpl") (codes "WTFPL") (codes "WTFPL") a true
        ((codes "do what the fuck you want to") ∷ []) ([])
    ∷ row (codes "pddl") (codes "PDDL-1.0") (codes "ODC Public Domain Dedication") a true
        ((codes "public domain dedication") ∷ []) ([])
    ∷ row (codes "cc-by-3.0") (codes "CC-BY-3.0") (codes "CC BY 3.0") a true
        ((codes "attribution 3.0") ∷ []) ([])
    ∷ row (codes "cc-by-4.0") (codes "CC-BY-4.0") (codes "CC BY 4.0") a true
        ((codes "attribution 4.0 international") ∷ []) ([])
    ∷ row (codes "cc-by-sa-3.0") (codes "CC-BY-SA-3.0") (codes "CC BY-SA 3.0") a true
        ((codes "attribution-sharealike 3.0") ∷ []) ([])
    ∷ row (codes "cc-by-sa-4.0") (codes "CC-BY-SA-4.0") (codes "CC BY-SA 4.0") a true
        ((codes "attribution-sharealike 4.0") ∷ []) ([])
    ∷ row (codes "odc-by") (codes "ODC-By-1.0") (codes "ODC Attribution 1.0") a true
        ((codes "open data commons attribution license") ∷ []) ([])
    ∷ row (codes "cdla-permissive-1.0") (codes "CDLA-Permissive-1.0") (codes "CDLA Permissive 1.0")
        a true ((codes "community data license agreement") ∷ []) ([])
    ∷ row (codes "cdla-permissive-2.0") (codes "CDLA-Permissive-2.0") (codes "CDLA Permissive 2.0")
        a true ((codes "community data license agreement") ∷ []) ([])
    ∷ row (codes "mpl-2.0") (codes "MPL-2.0") (codes "Mozilla Public License 2.0") a true
        ((codes "mozilla public license") ∷ []) ([])
    ∷ row (codes "postgresql") (codes "PostgreSQL") (codes "PostgreSQL License") a true
        ((codes "permission to use, copy, modify, and distribute") ∷ []) ([])
    ∷ row (codes "ncsa") (codes "NCSA") (codes "University of Illinois/NCSA") a true
        ((codes "university of illinois") ∷ []) ([])
    ∷ row (codes "afl-3.0") (codes "AFL-3.0") (codes "Academic Free License 3.0") a true
        ((codes "academic free license") ∷ []) ([])
    ∷ row (codes "ecl-2.0") (codes "ECL-2.0") (codes "Educational Community License 2.0") a true
        ((codes "educational community license") ∷ []) ([])
    ∷ row (codes "ms-pl") (codes "MS-PL") (codes "Microsoft Public License") a true
        ((codes "microsoft public license") ∷ []) ([])
    ∷ row (codes "artistic-2.0") (codes "Artistic-2.0") (codes "Artistic License 2.0") a true
        ((codes "artistic license 2.0") ∷ []) ([])
    ∷ row (codes "openmdw-1.0") (codes "OpenMDW-1.0") (codes "OpenMDW 1.0") a true
        ((codes "openmdw") ∷ []) ([])
    ∷ row (codes "openmdw-1.1") ([]) (codes "OpenMDW 1.1") a false ((codes "openmdw") ∷ [])
        (codes "no SPDX text yet; the repo must ship its own")
    ∷ []

unfoldable pub conditional : List Licence
conditional =
    row (codes "llama2") ([]) (codes "Llama 2 Community License") b1 false
      ((codes "llama 2 community license") ∷ []) ([])
    ∷ row (codes "llama3") ([]) (codes "Meta Llama 3 Community License") b1 false
        ((codes "llama 3 community license") ∷ []) ([])
    ∷ row (codes "llama3.1") ([]) (codes "Llama 3.1 Community License") b1 false
        ((codes "llama 3.1 community license") ∷ []) ([])
    ∷ row (codes "llama3.2") ([]) (codes "Llama 3.2 Community License") b1 false
        ((codes "llama 3.2 community license") ∷ [])
        (codes "no rights for multimodal models to people and companies in the EU")
    ∷ row (codes "llama3.3") ([]) (codes "Llama 3.3 Community License") b1 false
        ((codes "llama 3.3 community license") ∷ []) ([])
    ∷ row (codes "llama4") ([]) (codes "Llama 4 Community License") b1 false
        ((codes "llama 4 community license") ∷ [])
        (codes "no rights for multimodal models to people and companies in the EU")
    ∷ row (codes "gemma") ([]) (codes "Gemma Terms of Use") b1 false ((codes "gemma") ∷ []) ([])
    ∷ row (codes "openrail") ([]) (codes "OpenRAIL") b1 false ((codes "rail") ∷ []) ([])
    ∷ row (codes "openrail++") ([]) (codes "OpenRAIL++-M") b1 false ((codes "rail") ∷ []) ([])
    ∷ row (codes "creativeml-openrail-m") ([]) (codes "CreativeML OpenRAIL-M") b1 false
        ((codes "openrail") ∷ []) ([])
    ∷ row (codes "bigscience-openrail-m") ([]) (codes "BigScience OpenRAIL-M") b1 false
        ((codes "openrail") ∷ []) ([])
    ∷ row (codes "bigscience-bloom-rail-1.0") ([]) (codes "BigScience BLOOM RAIL 1.0") b1 false
        ((codes "rail") ∷ []) ([])
    ∷ row (codes "bigcode-openrail-m") ([]) (codes "BigCode OpenRAIL-M") b1 false
        ((codes "openrail") ∷ []) ([])
    ∷ row (codes "cc-by-nd-4.0") (codes "CC-BY-ND-4.0") (codes "CC BY-ND 4.0") b1 false
        ((codes "noderivatives 4.0") ∷ []) (codes "verbatim copies only")
    ∷ row (codes "qwen") ([]) (codes "Qwen License Agreement") b1 false ((codes "qwen") ∷ []) ([])
    ∷ row (codes "tongyi-qianwen") ([]) (codes "Tongyi Qianwen License Agreement") b1 false
        ((codes "tongyi qianwen") ∷ []) ([])
    ∷ row (codes "deepseek") ([]) (codes "DeepSeek License Agreement") b1 false
        ((codes "deepseek") ∷ []) ([])
    ∷ row (codes "falcon") ([]) (codes "TII Falcon License 2.0") b1 false ((codes "falcon") ∷ [])
        ([])
    ∷ row (codes "nvidia-open-model-license") ([]) (codes "NVIDIA Open Model License") b1 false
        ((codes "nvidia open model license") ∷ []) ([])
    ∷ row (codes "stabilityai-community") ([]) (codes "Stability AI Community License") b1 false
        ((codes "stability ai community license") ∷ []) ([])
    ∷ row (codes "gpl-2.0") (codes "GPL-2.0-only") (codes "GNU GPL 2.0") b1 false
        ((codes "gnu general public license") ∷ []) ([])
    ∷ row (codes "gpl-3.0") (codes "GPL-3.0-only") (codes "GNU GPL 3.0") b1 false
        ((codes "gnu general public license") ∷ []) ([])
    ∷ row (codes "lgpl-3.0") (codes "LGPL-3.0-only") (codes "GNU LGPL 3.0") b1 false
        ((codes "gnu lesser general public license") ∷ []) ([])
    ∷ row (codes "agpl-3.0") (codes "AGPL-3.0-only") (codes "GNU AGPL 3.0") b1 false
        ((codes "gnu affero general public license") ∷ []) ([])
    ∷ []

unfoldable pub non_commercial : List Licence
non_commercial =
    row (codes "cc-by-nc-2.0") (codes "CC-BY-NC-2.0") (codes "CC BY-NC 2.0") b2 false
      ((codes "noncommercial") ∷ []) ([])
    ∷ row (codes "cc-by-nc-3.0") (codes "CC-BY-NC-3.0") (codes "CC BY-NC 3.0") b2 false
        ((codes "noncommercial 3.0") ∷ []) ([])
    ∷ row (codes "cc-by-nc-4.0") (codes "CC-BY-NC-4.0") (codes "CC BY-NC 4.0") b2 false
        ((codes "noncommercial 4.0") ∷ []) ([])
    ∷ row (codes "cc-by-nc-sa-4.0") (codes "CC-BY-NC-SA-4.0") (codes "CC BY-NC-SA 4.0") b2 false
        ((codes "noncommercial-sharealike 4.0") ∷ []) ([])
    ∷ row (codes "cc-by-nc-nd-4.0") (codes "CC-BY-NC-ND-4.0") (codes "CC BY-NC-ND 4.0") b2 false
        ((codes "noncommercial-noderivatives 4.0") ∷ []) (codes "verbatim copies only")
    ∷ row (codes "mrl") ([]) (codes "Mistral AI Research License") b2 false
        ((codes "mistral ai research license") ∷ [])
        (codes "no distribution by commercial entities")
    ∷ row (codes "mnpl") ([]) (codes "Mistral AI Non-Production License") b2 false
        ((codes "non-production license") ∷ []) ([])
    ∷ row (codes "flux-1-dev-non-commercial-license") ([])
        (codes "FLUX.1 [dev] Non-Commercial License") b2 false
        ((codes "non-commercial license") ∷ []) ([])
    ∷ row (codes "qwen-research") ([]) (codes "Qwen Research License") b2 false
        ((codes "qwen research license") ∷ []) ([])
    ∷ []

unfoldable pub licences : List Licence
unfolding permissive conditional non_commercial
licences = permissive ++ (conditional ++ non_commercial)
