-- ===== src/Dce/Flaws.antt =====
-- Two classes of modules on which the pass changes what is emitted.
