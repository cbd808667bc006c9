-- ===== src/Klog/Tests.antt =====
-- kernel/klog.c: the theorem on a concrete number.
