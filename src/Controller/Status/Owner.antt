-- ===== src/Controller/Status/Owner.antt =====
-- One lakehouse of a namespace applies; the others are blocked by it.
use stardelt_operator.Common.{nat_eq, string_eq}
