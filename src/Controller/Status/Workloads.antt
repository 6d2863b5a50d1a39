-- ===== src/Controller/Status/Workloads.antt =====
-- When a release's workloads are ready.
use stardelt_operator.Common.{nat_eq, string_eq}
