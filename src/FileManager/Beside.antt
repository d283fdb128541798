-- ===== src/FileManager/Beside.antt =====
-- userprog/exception.cc: the system call Write and the other users of a file.
