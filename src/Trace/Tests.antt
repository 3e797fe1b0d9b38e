-- ===== src/Trace/Tests.antt =====
-- A header that a propagator sets over another value.
use huma.Base.{[], ◌∷◌, pos}
use huma.Go.Table.{Table, int}

abbrev headers : Table
headers = ("traceparent", int (pos 42)) ∷ []
